-- ===== src/Queue/Redis/Refinement.antt =====
-- The queue of pkg/queue/redis_queue.go and the list of jobs that it stands for.
use remote_runtime_engine.Base.{
  ℕ, ◌≡◌, ◌≢◌, refl, sym, ap, subst, suc, ◌∙◌, Bool, true, false, Option, none, some, Result, ok,
  err, List, [], ◌∷◌, ◌++◌, reverse, reverse-append, reverse-cons, length, length-append, Text,
  Float, arith,
}
use remote_runtime_engine.Queue.{SubmissionJob, normalize_job}
use remote_runtime_engine.Queue.Redis
use remote_runtime_engine.Queue.Redis.{
  RedisLists, JobCodec, RedisQueueError, Popped, popped, nil_reply, failed, queue_empty,
  unmarshal_failed, marshal_failed, client_failed, nil_job, dequeue_failed, pushed, push_encoded,
  after_pop, decoded, counted,
}

-- What is documented of the commands on a list that answer without an error: a new value goes to the
-- head, `BRPOP` takes the tail and answers with the key and the value, or takes nothing at the timeout,
-- and `LLEN` counts. Of a command that ends in an error, nothing is assumed.
pub record ListLaws {S : Type 0} (client : RedisLists S) (items : S → Text → List Text)
    : Type 0 where
  pub pushes :
      (k t : Text) (s s' : S) → client.lpush k t s ≡ (none, s') → items s' k ≡ t ∷ items s k
  pub pops :
      (k : Text) (r : List Text) (s s' : S)
      → client.brpop k s ≡ (popped r, s')
      → (t : Text) × (r ≡ k ∷ t ∷ []) × (items s k ≡ items s' k ++ t ∷ [])
  pub times_out :
      (k : Text) (s s' : S) → client.brpop k s ≡ (nil_reply, s') → items s' k ≡ items s k
  pub measures :
      (k : Text) (n : ℕ) (s s' : S)
      → client.llen k s ≡ (ok n, s')
      → (n ≡ length (items s k)) × (items s' k ≡ items s k)
  pub closes : (k : Text) (s : S) → items (client.close s) k ≡ items s k

-- The encoding of a job, where there is one, decodes to the job. The codec of the source has this for
-- a job whose texts are valid UTF-8.
abbrev pub Restores : {F : Type 0} → JobCodec F → SubmissionJob F → Type 0
Restores codec j = (t : Text) → codec.marshal j ≡ ok t → codec.unmarshal t ≡ ok j

length-reverse : (ts : List Text) → length (reverse ts) ≡ length ts
length-reverse [] = refl
length-reverse (t ∷ ts) =
    ap length (reverse-cons t ts)
    ∙ omega (arith, length-append (reverse ts) (t ∷ []), length-reverse ts)

module _ {S F : Type 0} (client : RedisLists S) (codec : JobCodec F) (key : Text) where
  -- The values, the oldest first, decode to the jobs.
  abbrev pub Decodes : List Text → List (SubmissionJob F) → Type 0
  Decodes [] [] = Unit
  Decodes (t ∷ ts) (x ∷ xs) = (codec.unmarshal t ≡ ok x) × Decodes ts xs
  Decodes _ _ = ⊥

  Decodes-snoc :
      (ts : List Text) (xs : List (SubmissionJob F)) (t : Text) (x : SubmissionJob F)
      → Decodes ts xs
      → codec.unmarshal t ≡ ok x
      → Decodes (ts ++ t ∷ []) (xs ++ x ∷ [])
  Decodes-snoc [] [] t x h e = (e, tt)
  Decodes-snoc (u ∷ ts) (y ∷ xs) t x h e = (h.0, Decodes-snoc ts xs t x h.1 e)
  Decodes-snoc [] (y ∷ xs) t x h e = absurd h
  Decodes-snoc (u ∷ ts) [] t x h e = absurd h

  Decodes-length :
      (ts : List Text) (xs : List (SubmissionJob F)) → Decodes ts xs → length ts ≡ length xs
  Decodes-length [] [] h = refl
  Decodes-length (t ∷ ts) (x ∷ xs) h = ap (λ n. suc n) (Decodes-length ts xs h.1)
  Decodes-length [] (x ∷ xs) h = absurd h
  Decodes-length (t ∷ ts) [] h = absurd h

  module _ (items : S → Text → List Text) where
    abbrev pub Holds : S → List (SubmissionJob F) → Type 0
    Holds s xs = Decodes (reverse (items s key)) xs

    Holds-same :
        (s s' : S) (xs : List (SubmissionJob F))
        → items s' key ≡ items s key
        → Holds s xs
        → Holds s' xs
    Holds-same s s' xs e h = subst (λ ts. Decodes (reverse ts) xs) (sym e) h

    -- What the queue holds after an enqueue, and after a dequeue; after an error of the client it may
    -- hold anything.
    abbrev Pushed : SubmissionJob F → List (SubmissionJob F) → Option RedisQueueError × S → Type 0
    Pushed job xs (none, s) = Holds s (xs ++ job ∷ [])
    Pushed job xs (some (client_failed e), s) = Unit {0}
    Pushed job xs (some e, s) = Holds s xs

    abbrev Taken :
        Bool → List (SubmissionJob F) → Result RedisQueueError (SubmissionJob F) × S → Type 0
    Taken d xs (ok job, s) = (rest : List (SubmissionJob F)) × (xs ≡ job ∷ rest) × Holds s rest
    Taken d xs (err (dequeue_failed e), s) = Unit {0}
    Taken true xs (err queue_empty, s) = Unit {0}
    Taken false xs (err queue_empty, s) = Holds s xs
    Taken d xs (err e, s) = ⊥

    -- The queue keeps to a list of jobs in every call without an error of the client. A dequeue is by
    -- a context that is not done, which a reply at the timeout alone leaves without a job.
    pub record IsFifo (fl : Float F) : Type 0 where
      pub adds :
          (now : ℕ) (job : SubmissionJob F) (s s' : S) (xs : List (SubmissionJob F))
          → Restores codec (normalize_job fl now job)
          → Redis.enqueue client codec key fl now (some job) s ≡ (none, s')
          → Holds s xs
          → Holds s' (xs ++ normalize_job fl now job ∷ [])
      pub refuses :
          (now : ℕ) (job : SubmissionJob F) (s s' : S) (e : Text) (xs : List (SubmissionJob F))
          → Redis.enqueue client codec key fl now (some job) s ≡ (some (marshal_failed e), s')
          → Holds s xs
          → Holds s' xs
      pub takes :
          (ctx_done : Bool) (s s' : S) (job : SubmissionJob F) (xs : List (SubmissionJob F))
          → Redis.dequeue client codec key ctx_done s ≡ (ok job, s')
          → Holds s xs
          → (rest : List (SubmissionJob F)) × (xs ≡ job ∷ rest) × Holds s' rest
      pub waits :
          (s s' : S) (xs : List (SubmissionJob F))
          → Redis.dequeue client codec key false s ≡ (err queue_empty, s')
          → Holds s xs
          → Holds s' xs
      pub decodes :
          (ctx_done : Bool) (s s' : S) (e : Text) (xs : List (SubmissionJob F))
          → Holds s xs
          → Redis.dequeue client codec key ctx_done s ≢ (err (unmarshal_failed e), s')
      pub counts :
          (s s' : S) (n : ℕ) (xs : List (SubmissionJob F))
          → Redis.queue_depth client codec key s ≡ (ok n, s')
          → Holds s xs
          → (n ≡ length xs) × Holds s' xs
      pub closes :
          (s : S) (xs : List (SubmissionJob F))
          → Holds s xs
          → Holds (Redis.close client codec key s) xs

    module _ (lists : ListLaws client items) where
      pushed-Pushed :
          (r : Option Text × S) (t : Text) (job : SubmissionJob F) (s : S)
          (xs : List (SubmissionJob F))
          → client.lpush key t s ≡ r
          → codec.unmarshal t ≡ ok job
          → Holds s xs
          → Pushed job xs (pushed client codec key r)
      unfolding pushed
      pushed-Pushed (none, s') t job s xs h d v =
          subst (λ ts. Decodes ts (xs ++ job ∷ []))
            (sym (ap reverse (lists.pushes key t s s' h) ∙ reverse-cons t (items s key)))
            (Decodes-snoc (reverse (items s key)) xs t job v d)
      pushed-Pushed (some e, s') t job s xs h d v = tt

      push_encoded-Pushed :
          (r : Result Text Text) (job : SubmissionJob F) (s : S) (xs : List (SubmissionJob F))
          → ((t : Text) → r ≡ ok t → codec.unmarshal t ≡ ok job)
          → Holds s xs
          → Pushed job xs (push_encoded client codec key r s)
      unfolding push_encoded
      push_encoded-Pushed (err e) job s xs d v = v
      push_encoded-Pushed (ok t) job s xs d v =
          pushed-Pushed (client.lpush key t s) t job s xs refl (d t refl) v

      enqueue-Pushed :
          (fl : Float F) (now : ℕ) (job : SubmissionJob F) (s : S) (xs : List (SubmissionJob F))
          → Restores codec (normalize_job fl now job)
          → Holds s xs
          → Pushed
              (normalize_job fl now job)
              xs
              (Redis.enqueue client codec key fl now (some job) s)
      unfolding Redis.enqueue
      enqueue-Pushed fl now job s xs back v =
          push_encoded-Pushed (codec.marshal (normalize_job fl now job)) (normalize_job fl now job)
            s xs back v

      not_marshal :
          (r : Option Text × S) (e : Text) → (pushed client codec key r).0 ≢ some (marshal_failed e)
      unfolding pushed
      not_marshal (none, z) e k = cc
      not_marshal (some x, z) e k = cc

      refused_encoding :
          (r : Result Text Text) (e : Text) (s s' : S) (xs : List (SubmissionJob F))
          → push_encoded client codec key r s ≡ (some (marshal_failed e), s')
          → Holds s xs
          → Holds s' xs
      unfolding push_encoded
      refused_encoding (err x) e s s' xs h v = subst (λ z. Holds z xs) (ap (λ p. p.1) h) v
      refused_encoding (ok t) e s s' xs h v =
          absurd (not_marshal (client.lpush key t s) e (ap (λ p. p.0) h))

      decoded-Taken :
          (ctx_done : Bool) (t : Text) (ts : List Text) (s' : S) (xs : List (SubmissionJob F))
          → reverse (items s' key) ≡ ts
          → Decodes (t ∷ ts) xs
          → Taken ctx_done xs (decoded client codec key (codec.unmarshal t), s')
      unfolding decoded
      decoded-Taken d t ts s' [] e v = absurd v
      decoded-Taken d t ts s' (x ∷ xs) e v =
          rw (v.0, decoded) (xs, refl, subst (λ us. Decodes us xs) (sym e) v.1)

      after_pop-Taken :
          (ctx_done : Bool) (r : Popped) (s s' : S) (xs : List (SubmissionJob F))
          → client.brpop key s ≡ (r, s')
          → Holds s xs
          → Taken ctx_done xs (after_pop client codec key ctx_done r, s')
      unfolding after_pop
      after_pop-Taken true nil_reply s s' xs h v = tt
      after_pop-Taken false nil_reply s s' xs h v =
          Holds-same s s' xs (lists.times_out key s s' h) v
      after_pop-Taken true (failed e) s s' xs h v = tt
      after_pop-Taken false (failed e) s s' xs h v = tt
      after_pop-Taken d (popped []) s s' xs h v =
          let (t, e, _) = lists.pops key [] s s' h in absurd (cc)
      after_pop-Taken d (popped (k ∷ [])) s s' xs h v =
          let (t, e, _) = lists.pops key (k ∷ []) s s' h in absurd (cc)
      after_pop-Taken d (popped (k ∷ t ∷ r)) s s' xs h v =
          let (t', e, e') = lists.pops key (k ∷ t ∷ r) s s' h in
          let same : t' ≡ t = cc in
          let last : reverse (items s key) ≡ t ∷ reverse (items s' key) =
            ap reverse e'
            ∙ reverse-append (items s' key) (t' ∷ [])
            ∙ ap (λ u. u ∷ reverse (items s' key)) same in
          decoded-Taken d t (reverse (items s' key)) s' xs refl (subst (λ us. Decodes us xs) last v)

      dequeue-Taken :
          (ctx_done : Bool) (s : S) (xs : List (SubmissionJob F))
          → Holds s xs
          → Taken ctx_done xs (Redis.dequeue client codec key ctx_done s)
      unfolding Redis.dequeue
      dequeue-Taken d s xs v =
          after_pop-Taken d (client.brpop key s).0 s (client.brpop key s).1 xs refl v

      counted-Holds :
          (r : Result Text ℕ × S) (s s' : S) (n : ℕ) (xs : List (SubmissionJob F))
          → client.llen key s ≡ r
          → counted client codec key r ≡ (ok n, s')
          → Holds s xs
          → (n ≡ length xs) × Holds s' xs
      unfolding counted
      counted-Holds (ok m, s₁) s s' n xs h k v =
          let (e, e') = lists.measures key m s s₁ h in
          let eq : s₁ ≡ s' = ap (λ p. p.1) k in
          let same : m ≡ n = cc in
          (
            sym same
                ∙ e
                ∙ sym (length-reverse (items s key))
                ∙ Decodes-length (reverse (items s key)) xs v,
            subst (λ z. Holds z xs) eq (Holds-same s s₁ xs e' v),
          )
      counted-Holds (err e, s₁) s s' n xs h k v = absurd (cc)

      -- Where the commands on a list that answer without an error do what is documented of them, the
      -- queue over Redis is a first-in first-out list in every call without an error of the client,
      -- whatever the commands with an error do. What it holds is what the values of the list decode to,
      -- the tail first. A job whose encoding decodes to it is put at the end as Normalize leaves it; one
      -- that does not encode changes nothing; a dequeue takes the oldest job, never fails to decode, and,
      -- where its context is not done, without a job changes nothing; the depth is the number of jobs;
      -- closing changes nothing.
      pub redis_queue-IsFifo : (fl : Float F) → IsFifo fl
      unfolding Redis.queue_depth Redis.close Redis.enqueue
      redis_queue-IsFifo fl = record {
        adds = λ now job s s' xs back h v.
            subst (Pushed (normalize_job fl now job) xs) h (enqueue-Pushed fl now job s xs back v);
        refuses = λ now job s s' e xs h v.
            refused_encoding (codec.marshal (normalize_job fl now job)) e s s' xs h v;
        takes = λ d s s' job xs h v. subst (Taken d xs) h (dequeue-Taken d s xs v);
        waits = λ s s' xs h v. subst (Taken false xs) h (dequeue-Taken false s xs v);
        decodes = λ d s s' e xs v h. subst (Taken d xs) h (dequeue-Taken d s xs v);
        counts = λ s s' n xs h v. counted-Holds (client.llen key s) s s' n xs refl h v;
        closes = λ s xs v. Holds-same s (client.close s) xs (lists.closes key s) v;
      }
