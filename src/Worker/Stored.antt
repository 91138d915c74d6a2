-- ===== src/Worker/Stored.antt =====
-- What a job of pkg/worker/worker.go leaves in the store of pkg/store/memory_store.go.
use remote_runtime_engine.Base.{
  ◌≡◌, refl, ap, ◌∙◌, false, Bool-cases, inl, inr, some, List, [], ◌∷◌, Text, text_eq, Float, ok,
  All, some_injective, if◌then◌else◌,
}
use remote_runtime_engine.Queue.{SubmissionJob}
use remote_runtime_engine.Store.{SubmissionState, MemoryStore, save_state, get_state}
use remote_runtime_engine.Store.Lookup.{get_state-save_state}
use remote_runtime_engine.Worker.{
  World, Env, Effect, publishes, saves, prepares, opens, cleans, records, audits, violates,
}
use remote_runtime_engine.Worker.Process.{process_job}
use remote_runtime_engine.Worker.Effects.{IsProper, process_job-IsProper}
use remote_runtime_engine.Worker.Outcome.{last_saved, Settled, process_job-IsOver}

module _ {F : Type 0} where
  -- The store after the saves of a log, whose newest effect is the first. A saved state bears the time
  -- of its save.
  unfoldable pub stored : List (Effect F) → MemoryStore F → MemoryStore F
  stored [] m = m
  stored (saves s ∷ log) m = save_state s.updated_at (some s) (stored log m)
  stored (_ ∷ log) m = stored log m

  -- The saves of one submission leave the others.
  others-stored :
      (j : SubmissionJob F) (log : List (Effect F)) (m : MemoryStore F) (id : Text)
      → text_eq j.submission_id id ≡ false
      → All (IsProper j) log
      → get_state id (stored log m) ≡ get_state id m
  unfolding stored
  others-stored j [] m id h v = refl
  others-stored j (saves t ∷ log) m id h v =
      get_state-save_state t.updated_at t (stored log m) id
      ∙ rw (v.0, h) (others-stored j log m id h v.1)
  others-stored j (publishes i e ∷ log) m id h v = others-stored j log m id h v.1
  others-stored j (prepares r ∷ log) m id h v = others-stored j log m id h v.1
  others-stored j (opens c ∷ log) m id h v = others-stored j log m id h v.1
  others-stored j (cleans c ∷ log) m id h v = others-stored j log m id h v.1
  others-stored j (records a b c d e f ∷ log) m id h v = others-stored j log m id h v.1
  others-stored j (audits a b c d e ∷ log) m id h v = others-stored j log m id h v.1
  others-stored j (violates a ∷ log) m id h v = others-stored j log m id h v.1

  -- The last state saved, and the saves of one submission only.
  last_saved-stored :
      (j : SubmissionJob F) (log : List (Effect F)) (m : MemoryStore F) (s : SubmissionState F)
      (id : Text)
      → last_saved log ≡ some s
      → All (IsProper j) log
      → get_state id (stored log m) ≡ (if text_eq j.submission_id id then ok s else get_state id m)
  unfolding last_saved stored
  last_saved-stored j [] m s id h v = absurd (cc)
  last_saved-stored j (saves t ∷ log) m s id h v =
      let same : t ≡ s = some_injective h in
      get_state-save_state t.updated_at t (stored log m) id
      ∙ ap (λ b. if b then ok t else get_state id (stored log m)) (ap (λ x. text_eq x id) v.0)
      ∙ (elim (Bool-cases (text_eq j.submission_id id)) [
        | inl e ↦ simp (e) (ap ok same)
        | inr e ↦ simp (e) (others-stored j log m id e v.1)
      ])
  last_saved-stored j (publishes i e ∷ log) m s id h v = last_saved-stored j log m s id h v.1
  last_saved-stored j (prepares r ∷ log) m s id h v = last_saved-stored j log m s id h v.1
  last_saved-stored j (opens c ∷ log) m s id h v = last_saved-stored j log m s id h v.1
  last_saved-stored j (cleans c ∷ log) m s id h v = last_saved-stored j log m s id h v.1
  last_saved-stored j (records a b c d e f ∷ log) m s id h v = last_saved-stored j log m s id h v.1
  last_saved-stored j (audits a b c d e ∷ log) m s id h v = last_saved-stored j log m s id h v.1
  last_saved-stored j (violates a ∷ log) m s id h v = last_saved-stored j log m s id h v.1

module _ {S F : Type 0} (fl : Float F) (env : Env S F) (j : SubmissionJob F) where
  -- A job whose effects go to a store ends, also by a panic, with a settled state of its submission
  -- in the store: failed, or completed with an account of all its cases. Every other submission reads
  -- as before.
  pub process_job-stored :
      (os : S) (m : MemoryStore F) (id : Text)
      → (s : SubmissionState F) × Settled fl j s
        × (get_state id
              (stored (process_job fl env (some j) (record { os = os; log = [] })).1.log m)
            ≡ (if text_eq j.submission_id id then ok s else get_state id m))
  process_job-stored os m id =
      let w : World S F = record { os = os; log = [] } in
      let (s, e, last, _, _, _, _, settled) = process_job-IsOver fl env j w in
      (
        s,
        settled,
        last_saved-stored j (process_job fl env (some j) w).1.log m s id last
            (process_job-IsProper fl env j w tt),
      )
