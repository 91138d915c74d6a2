-- ===== src/Store/Redis/Refinement.antt =====
-- The store of pkg/store/redis_store.go and the map of states that it stands for.
use remote_runtime_engine.Base.{
  ℕ, ◌≡◌, ◌≢◌, refl, sym, ap, subst, ◌∙◌, Bool-cases, Option, none, some, Result, ok, err, Text, ℤ,
  text_eq, inl, inr, if◌then◌else◌,
}
use remote_runtime_engine.Store.{SubmissionState}
use remote_runtime_engine.Store.Contract.{update}
use remote_runtime_engine.Store.Redis
use remote_runtime_engine.Store.Redis.{
  RedisValues, StateCodec, Reply, value, nil_reply, failed, RedisStoreError, not_found, nil_state,
  marshal_failed, get_failed, unmarshal_failed, client_failed, state_key, written, set_encoded,
  decoded, after_get,
}

-- What is documented of a `SET` and a `GET` that answer without an error, while no value reaches the
-- end of its life: a value is set and no other changes, and a read answers what is held and changes
-- nothing. Of a command that ends in an error, nothing is assumed.
pub record ValueLaws {S : Type 0} (client : RedisValues S) (held : S → Text → Option Text)
    : Type 0 where
  pub sets :
      (k t : Text) (ttl : ℤ) (s s' : S)
      → client.set k t ttl s ≡ (none, s')
      → (j : Text) → held s' j ≡ (if text_eq k j then some t else held s j)
  pub finds :
      (k t : Text) (s s' : S)
      → client.fetch k s ≡ (value t, s')
      → (held s k ≡ some t) × ((j : Text) → held s' j ≡ held s j)
  pub misses :
      (k : Text) (s s' : S)
      → client.fetch k s ≡ (nil_reply, s')
      → (held s k ≡ none) × ((j : Text) → held s' j ≡ held s j)

-- The encoding of a state, where there is one, decodes to the state. The codec of the source has this
-- for a state whose texts are valid UTF-8.
abbrev pub Restores : {F : Type 0} → StateCodec F → SubmissionState F → Type 0
Restores codec st = (t : Text) → codec.marshal st ≡ ok t → codec.unmarshal t ≡ ok st

state_key-eq : (a b : Text) → text_eq (state_key a) (state_key b) ≡ text_eq a b
unfolding state_key text_eq
state_key-eq a b = refl

module _ {S F : Type 0} (client : RedisValues S) (codec : StateCodec F) (ttl : ℤ) where
  -- A value is absent with its state, or decodes to it.
  abbrev pub Decodes : Option Text → Option (SubmissionState F) → Type 0
  Decodes none none = Unit
  Decodes (some t) (some st) = codec.unmarshal t ≡ ok st
  Decodes _ _ = ⊥

  module _ (held : S → Text → Option Text) where
    abbrev pub Holds : S → (Text → Option (SubmissionState F)) → Type 0
    Holds s f = (id : Text) → Decodes (held s (state_key id)) (f id)

    Holds-same :
        (s s' : S) (f : Text → Option (SubmissionState F))
        → ((j : Text) → held s' j ≡ held s j)
        → Holds s f
        → Holds s' f
    Holds-same s s' f e v id = subst (λ o. Decodes o (f id)) (sym (e (state_key id))) (v id)

    -- What the store holds after a save; after an error of the client it may hold anything.
    abbrev Saved :
        SubmissionState F
        → (Text → Option (SubmissionState F))
        → Option RedisStoreError × S
        → Type 0
    Saved st f (none, s) = Holds s (update f st.submission_id st)
    Saved st f (some (client_failed e), s) = Unit {0}
    Saved st f (some e, s) = Holds s f

    -- What a read of `id` says of the states, and what the store holds after it.
    abbrev Read :
        Text
        → (Text → Option (SubmissionState F))
        → Result RedisStoreError (SubmissionState F) × S
        → Type 0
    Read id f (ok st, s) = (f id ≡ some st) × Holds s f
    Read id f (err not_found, s) = (f id ≡ none) × Holds s f
    Read id f (err (get_failed e), s) = Unit {0}
    Read id f (err e, s) = ⊥

    -- The store keeps to a map of states in every call without an error of the client.
    pub record IsMap : Type 0 where
      pub saves :
          (now : ℕ) (st : SubmissionState F) (s s' : S) (f : Text → Option (SubmissionState F))
          → Restores codec (record st { updated_at = now })
          → Redis.save_state client codec ttl now (some st) s ≡ (none, s')
          → Holds s f
          → Holds s' (update f st.submission_id (record st { updated_at = now }))
      pub finds :
          (id : Text) (st : SubmissionState F) (s s' : S) (f : Text → Option (SubmissionState F))
          → Redis.get_state client codec ttl id s ≡ (ok st, s')
          → Holds s f
          → (f id ≡ some st) × Holds s' f
      pub misses :
          (id : Text) (s s' : S) (f : Text → Option (SubmissionState F))
          → Redis.get_state client codec ttl id s ≡ (err not_found, s')
          → Holds s f
          → (f id ≡ none) × Holds s' f
      pub decodes :
          (id e : Text) (s s' : S) (f : Text → Option (SubmissionState F))
          → Holds s f
          → Redis.get_state client codec ttl id s ≢ (err (unmarshal_failed e), s')

    module _ (values : ValueLaws client held) where
      set-Decodes :
          (st : SubmissionState F) (t : Text) (s s' : S) (f : Text → Option (SubmissionState F))
          → client.set (state_key st.submission_id) t ttl s ≡ (none, s')
          → codec.unmarshal t ≡ ok st
          → Holds s f
          → Holds s' (update f st.submission_id st)
      set-Decodes st t s s' f h d v id =
          subst (λ o. Decodes o (update f st.submission_id st id))
            (sym (
              values.sets (state_key st.submission_id) t ttl s s' h (state_key id)
              ∙ ap (λ b. if b then some t else held s (state_key id))
                  (state_key-eq st.submission_id id)))
            (elim (Bool-cases (text_eq st.submission_id id)) [
              | inl e ↦ simp (e) d
              | inr e ↦ simp (e) (v id)
            ])

      written-Saved :
          (r : Option Text × S) (t : Text) (st : SubmissionState F) (s : S)
          (f : Text → Option (SubmissionState F))
          → client.set (state_key st.submission_id) t ttl s ≡ r
          → codec.unmarshal t ≡ ok st
          → Holds s f
          → Saved st f (written client codec ttl r)
      unfolding written
      written-Saved (none, s') t st s f h d v = set-Decodes st t s s' f h d v
      written-Saved (some e, s') t st s f h d v = tt

      set_encoded-Saved :
          (r : Result Text Text) (st : SubmissionState F) (s : S)
          (f : Text → Option (SubmissionState F))
          → ((t : Text) → r ≡ ok t → codec.unmarshal t ≡ ok st)
          → Holds s f
          → Saved st f (set_encoded client codec ttl st.submission_id r s)
      unfolding set_encoded
      set_encoded-Saved (err e) st s f d v = v
      set_encoded-Saved (ok t) st s f d v =
          written-Saved (client.set (state_key st.submission_id) t ttl s) t st s f refl (d t refl) v

      save_state-Saved :
          (now : ℕ) (st : SubmissionState F) (s : S) (f : Text → Option (SubmissionState F))
          → Restores codec (record st { updated_at = now })
          → Holds s f
          → Saved
              (record st { updated_at = now })
              f
              (Redis.save_state client codec ttl now (some st) s)
      unfolding Redis.save_state
      save_state-Saved now st s f back v =
          set_encoded-Saved (codec.marshal (record st { updated_at = now }))
            (record st { updated_at = now }) s f back v

      decoded-Read :
          (id t : Text) (s : S) (f : Text → Option (SubmissionState F))
          (o : Option (SubmissionState F))
          → f id ≡ o
          → Decodes (some t) o
          → Holds s f
          → Read id f (decoded client codec ttl (codec.unmarshal t), s)
      unfolding decoded
      decoded-Read id t s f none e d v = absurd d
      decoded-Read id t s f (some st) e d v = rw (d, decoded) (e, v)

      none_back : (o : Option (SubmissionState F)) → Decodes none o → o ≡ none
      none_back none v = refl
      none_back (some x) v = absurd v

      after_get-Read :
          (r : Reply) (id : Text) (s s' : S) (f : Text → Option (SubmissionState F))
          → client.fetch (state_key id) s ≡ (r, s')
          → Holds s f
          → Read id f (after_get client codec ttl r, s')
      unfolding after_get
      after_get-Read (value t) id s s' f h v =
          let (there, same) = values.finds (state_key id) t s s' h in
          decoded-Read id t s' f (f id) refl (subst (λ o. Decodes o (f id)) there (v id))
            (Holds-same s s' f same v)
      after_get-Read nil_reply id s s' f h v =
          let (gone, same) = values.misses (state_key id) s s' h in
          (none_back (f id) (subst (λ o. Decodes o (f id)) gone (v id)), Holds-same s s' f same v)
      after_get-Read (failed e) id s s' f h v = tt

      get_state-Read :
          (id : Text) (s : S) (f : Text → Option (SubmissionState F))
          → Holds s f
          → Read id f (Redis.get_state client codec ttl id s)
      unfolding Redis.get_state
      get_state-Read id s f v =
          let (r, s') = client.fetch (state_key id) s in after_get-Read r id s s' f refl v

      -- Where a `SET` and a `GET` that answer without an error do what is documented of them, and no
      -- value has reached the end of its life, the store over Redis is a map of states in every call
      -- without an error of the client, whatever the commands with an error do. A saved state whose
      -- encoding decodes to it is put under its submission, stamped, and no other changes; a read answers
      -- the state of the submission or, exactly where there is none, not found, never fails to decode,
      -- and changes nothing.
      pub redis_store-IsMap : IsMap
      redis_store-IsMap = record {
        saves = λ now st s s' f back h v.
            subst (Saved (record st { updated_at = now }) f) h (save_state-Saved now st s f back v);
        finds = λ id st s s' f h v. subst (Read id f) h (get_state-Read id s f v);
        misses = λ id s s' f h v. subst (Read id f) h (get_state-Read id s f v);
        decodes = λ id e s s' f v h. subst (Read id f) h (get_state-Read id s f v);
      }
