-- ===== src/Worker/Stream.antt =====
-- The events of `ProcessJob` of pkg/worker/worker.go as a list, the oldest first.
use remote_runtime_engine.Base.{
  ◌≡◌, refl, ap, subst, ◌∙◌, true, false, List, [], ◌∷◌, ◌++◌, Float, some, All, All-append,
}
use remote_runtime_engine.Queue.{SubmissionJob}
use remote_runtime_engine.Events.{
  EventStatus, is_final, ExecutionEvent, compiling, running, test_case_start, test_case_passed,
  test_case_failed, completed, failed,
}
use remote_runtime_engine.Worker.{
  World, Env, Effect, publishes, saves, prepares, opens, cleans, records, audits, violates,
}
use remote_runtime_engine.Worker.Process.{process_job}
use remote_runtime_engine.Worker.Protocol.{
  Phase, idle, in_compiler, evaluating, in_case, finished, broken, advance, phase,
  process_job-phase,
}

module _ {F : Type 0} where
  unfoldable pub published : List (Effect F) → List (ExecutionEvent F)
  published [] = []
  published (publishes id e ∷ log) = published log ++ e ∷ []
  published (_ ∷ log) = published log

  -- Of a stream that is not over no event is final; of one that is over only the last.
  abbrev IsInterim : ExecutionEvent F → Type 0
  IsInterim e = is_final e.status ≡ false

  abbrev pub EndsOnce : List (ExecutionEvent F) → Type 0
  EndsOnce es =
      (first : List (ExecutionEvent F)) × (last : ExecutionEvent F) × (es ≡ first ++ last ∷ [])
      × All (λ e. is_final e.status ≡ false) first
      × (is_final last.status ≡ true)

  abbrev Told : Phase → List (ExecutionEvent F) → Type 0
  Told finished es = EndsOnce es
  Told broken es = Unit
  Told _ es = All IsInterim es

  more :
      (es : List (ExecutionEvent F)) (e : ExecutionEvent F) (st : EventStatus)
      → is_final st ≡ false
      → e.status ≡ st
      → All IsInterim es
      → All IsInterim (es ++ e ∷ [])
  more es e st k h u = All-append IsInterim es (e ∷ []) u (ap is_final h ∙ k, tt)

  last :
      (es : List (ExecutionEvent F)) (e : ExecutionEvent F) (st : EventStatus)
      → is_final st ≡ true
      → e.status ≡ st
      → All IsInterim es
      → EndsOnce (es ++ e ∷ [])
  last es e st k h u = (es, e, refl, u, ap is_final h ∙ k)

  advanced :
      (ph : Phase) (st : EventStatus) (es : List (ExecutionEvent F)) (e : ExecutionEvent F)
      → e.status ≡ st
      → Told ph es
      → Told (advance ph st) (es ++ e ∷ [])
  unfolding advance is_final
  advanced idle compiling es e h u = more es e compiling refl h u
  advanced idle running es e h u = more es e running refl h u
  advanced idle failed es e h u = last es e failed refl h u
  advanced in_compiler running es e h u = more es e running refl h u
  advanced in_compiler failed es e h u = last es e failed refl h u
  advanced evaluating test_case_start es e h u = more es e test_case_start refl h u
  advanced evaluating completed es e h u = last es e completed refl h u
  advanced evaluating failed es e h u = last es e failed refl h u
  advanced in_case test_case_passed es e h u = more es e test_case_passed refl h u
  advanced in_case test_case_failed es e h u = more es e test_case_failed refl h u
  advanced in_case failed es e h u = last es e failed refl h u
  advanced _ _ es e h u = tt

  phase-Told : (log : List (Effect F)) → Told (phase log) (published log)
  unfolding phase published
  phase-Told [] = tt
  phase-Told (publishes id e ∷ log) =
      advanced (phase log) e.status (published log) e refl (phase-Told log)
  phase-Told (saves s ∷ log) = phase-Told log
  phase-Told (prepares r ∷ log) = phase-Told log
  phase-Told (opens c ∷ log) = phase-Told log
  phase-Told (cleans c ∷ log) = phase-Told log
  phase-Told (records a b c d e f ∷ log) = phase-Told log
  phase-Told (audits a b c d e ∷ log) = phase-Told log
  phase-Told (violates a ∷ log) = phase-Told log

module _ {S F : Type 0} (fl : Float F) (env : Env S F) (j : SubmissionJob F) where
  -- The events of a job that published none before end by a final one, and no other is final.
  pub process_job-EndsOnce :
      (os : S)
      → EndsOnce (published (process_job fl env (some j) (record { os = os; log = [] })).1.log)
  unfolding phase
  process_job-EndsOnce os =
      let w : World S F = record { os = os; log = [] } in
      let log = (process_job fl env (some j) w).1.log in
      subst (λ ph. Told ph (published log)) (process_job-phase fl env j w refl) (phase-Told log)
