-- ===== src/System/Tracking/Runs.antt =====
-- What the effects of one run of a job do to the store.
use remote_runtime_engine.Base.{
  ◌≡◌, refl, sym, ap, ◌∙◌, subst, true, false, Bool-cases, inl, inr, Option, none, some, List, [],
  ◌∷◌, ◌++◌, reverse, reverse-cons, Text, Float, text_eq, text_eq_refl, text_eq_sound, All-reverse,
  arith,
}
use remote_runtime_engine.Queue.{SubmissionJob}
use remote_runtime_engine.Store.{SubmissionState}
use remote_runtime_engine.Store.Contract.{update}
use remote_runtime_engine.Worker.{
  Env, Effect, publishes, saves, prepares, opens, cleans, records, audits, violates,
}
use remote_runtime_engine.Worker.Process.{process_job}
use remote_runtime_engine.Worker.Effects.{IsProper, process_job-IsProper}
use remote_runtime_engine.Worker.Outcome.{last_saved, process_job-IsOver}
use remote_runtime_engine.System.{apply, start}
use remote_runtime_engine.System.Tracking.{finally, IsSettled, IsDue}

pub text_eq_flip : (a b : Text) → text_eq a b ≡ false → text_eq b a ≡ false
text_eq_flip a b h = elim (Bool-cases (text_eq b a)) [
  | inl e ↦ absurd (
      let same : b ≡ a = text_eq_sound b a e in
      let k : text_eq a b ≡ true = ap (text_eq a) same ∙ text_eq_refl a in cc)
  | inr e ↦ e
]

module _ {F : Type 0} where
  pub update-other :
      (f : Text → Option (SubmissionState F)) (id other : Text) (s : SubmissionState F)
      → text_eq id other ≡ false
      → update f id s other ≡ f other
  update-other f id other s h = rw h

  pub update-same :
      (f : Text → Option (SubmissionState F)) (id other : Text) (s : SubmissionState F)
      → id ≡ other
      → update f id s other ≡ some s
  update-same f id other s h =
      let e : text_eq id other ≡ true = ap (text_eq id) (sym h) ∙ text_eq_refl id in rw e

  pub update-none :
      (f : Text → Option (SubmissionState F)) (id other : Text) (s : SubmissionState F)
      → update f id s other ≡ none
      → (text_eq id other ≡ false) × (f other ≡ none)
  update-none f id other s h = elim (Bool-cases (text_eq id other)) [
    | inl e ↦ absurd (ground (arith, e, h))
    | inr e ↦ (e, sym (update-other f id other s e) ∙ h)
  ]

  -- An effect of a run leaves the other submissions.
  pub apply-other :
      (j : SubmissionJob F) (e : Effect F) (f : Text → Option (SubmissionState F)) (id : Text)
      → IsProper j e
      → text_eq j.submission_id id ≡ false
      → apply e f id ≡ f id
  unfolding apply
  apply-other j (saves s) f id p h =
      update-other f s.submission_id id s (ap (λ x. text_eq x id) p ∙ h)
  apply-other j (publishes i e) f id p h = refl
  apply-other j (prepares r) f id p h = refl
  apply-other j (opens c) f id p h = refl
  apply-other j (cleans c) f id p h = refl
  apply-other j (records a b c d e k) f id p h = refl
  apply-other j (audits a b c d e) f id p h = refl
  apply-other j (violates a) f id p h = refl

  -- An effect removes no state.
  pub apply-none :
      (e : Effect F) (f : Text → Option (SubmissionState F)) (id : Text)
      → apply e f id ≡ none
      → f id ≡ none
  unfolding apply
  apply-none (saves s) f id h = (update-none f s.submission_id id s h).1
  apply-none (publishes i e) f id h = h
  apply-none (prepares r) f id h = h
  apply-none (opens c) f id h = h
  apply-none (cleans c) f id h = h
  apply-none (records a b c d e k) f id h = h
  apply-none (audits a b c d e) f id h = h
  apply-none (violates a) f id h = h

  -- An effect of a run is the first step to its end.
  pub finally-apply :
      (j : SubmissionJob F) (e : Effect F) (rest : List (Effect F))
      (f : Text → Option (SubmissionState F))
      → IsProper j e
      → finally (e ∷ rest) (f j.submission_id) ≡ finally rest (apply e f j.submission_id)
  unfolding apply finally
  finally-apply j (saves s) rest f p =
      ap (finally rest) (sym (update-same f s.submission_id j.submission_id s p))
  finally-apply j (publishes i e) rest f p = refl
  finally-apply j (prepares r) rest f p = refl
  finally-apply j (opens c) rest f p = refl
  finally-apply j (cleans c) rest f p = refl
  finally-apply j (records a b c d e k) rest f p = refl
  finally-apply j (audits a b c d e) rest f p = refl
  finally-apply j (violates a) rest f p = refl

  finally-append :
      (xs ys : List (Effect F)) (o : Option (SubmissionState F))
      → finally (xs ++ ys) o ≡ finally ys (finally xs o)
  unfolding finally
  finally-append [] ys o = refl
  finally-append (saves s ∷ xs) ys o = finally-append xs ys (some s)
  finally-append (publishes i e ∷ xs) ys o = finally-append xs ys o
  finally-append (prepares r ∷ xs) ys o = finally-append xs ys o
  finally-append (opens c ∷ xs) ys o = finally-append xs ys o
  finally-append (cleans c ∷ xs) ys o = finally-append xs ys o
  finally-append (records a b c d e k ∷ xs) ys o = finally-append xs ys o
  finally-append (audits a b c d e ∷ xs) ys o = finally-append xs ys o
  finally-append (violates a ∷ xs) ys o = finally-append xs ys o

  finally-reverse_cons :
      (e : Effect F) (log : List (Effect F)) (o : Option (SubmissionState F))
      → finally (reverse (e ∷ log)) o ≡ finally (e ∷ []) (finally (reverse log) o)
  finally-reverse_cons e log o =
      ap (λ l. finally l o) (reverse-cons e log) ∙ finally-append (reverse log) (e ∷ []) o

  -- After a log, whose newest effect is the first, a submission reads the last state saved.
  finally-last_saved :
      (log : List (Effect F)) (o : Option (SubmissionState F)) (s : SubmissionState F)
      → last_saved log ≡ some s
      → finally (reverse log) o ≡ some s
  unfolding last_saved finally
  finally-last_saved [] o s h = absurd (cc)
  finally-last_saved (saves t ∷ log) o s h = finally-reverse_cons (saves t) log o ∙ h
  finally-last_saved (publishes i e ∷ log) o s h =
      finally-reverse_cons (publishes i e) log o ∙ finally-last_saved log o s h
  finally-last_saved (prepares r ∷ log) o s h =
      finally-reverse_cons (prepares r) log o ∙ finally-last_saved log o s h
  finally-last_saved (opens c ∷ log) o s h =
      finally-reverse_cons (opens c) log o ∙ finally-last_saved log o s h
  finally-last_saved (cleans c ∷ log) o s h =
      finally-reverse_cons (cleans c) log o ∙ finally-last_saved log o s h
  finally-last_saved (records a b c d e k ∷ log) o s h =
      finally-reverse_cons (records a b c d e k) log o ∙ finally-last_saved log o s h
  finally-last_saved (audits a b c d e ∷ log) o s h =
      finally-reverse_cons (audits a b c d e) log o ∙ finally-last_saved log o s h
  finally-last_saved (violates a ∷ log) o s h =
      finally-reverse_cons (violates a) log o ∙ finally-last_saved log o s h

module _ {S F : Type 0} (fl : Float F) (env : Env S F) (os : S) (j : SubmissionJob F) where
  -- A run that begins will leave its submission settled, whatever the store holds.
  pub start-IsDue : (f : Text → Option (SubmissionState F)) → IsDue fl f (start fl env os j)
  unfolding start
  start-IsDue f =
      let log = (process_job fl env (some j) (record { os = os; log = [] })).1.log in
      let (s, e, last, _, _, _, _, settled) =
        process_job-IsOver fl env j (record { os = os; log = [] }) in
      record {
        proper =
            All-reverse (IsProper j) log
              (process_job-IsProper fl env j (record { os = os; log = [] }) tt);
        settles =
            subst (IsSettled fl j) (sym (finally-last_saved log (f j.submission_id) s last))
              settled;
      }
