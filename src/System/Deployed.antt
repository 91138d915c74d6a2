-- ===== src/System/Deployed.antt =====
-- The system over any queue and any store that meet the interfaces of pkg/queue/queue.go and
-- pkg/store/store.go, as the handlers of pkg/api/server.go and the workers of pkg/worker/pool.go call
-- them: each step is one call with what it returns.
pub mod Refinement
pub mod Served
use remote_runtime_engine.Base.{
  ℕ, ◌≡◌, Bool, true, false, Option, none, some, Result, ok, err, List, [], ◌∷◌, ◌++◌, Text, Float,
  CaseTable,
}
use remote_runtime_engine.Queue.{SubmissionJob}
use remote_runtime_engine.Queue.Contract.{JobQueue}
use remote_runtime_engine.Store.{SubmissionState}
use remote_runtime_engine.Store.Contract.{StateStore}
use remote_runtime_engine.Worker.{
  Env, Effect, publishes, saves, prepares, opens, cleans, records, audits, violates,
}
use remote_runtime_engine.Api.{SubmitRequest, submission_id, initial_state, job_of, invalid}
use remote_runtime_engine.System.{Run, start}

pub record Deployed (Q M F : Type 0) : Type 0 where
  pub pending : List (SubmissionJob F)
  pub queue : Q
  pub running : List (Run F)
  pub store : M
  pub accepted : List (SubmissionJob F)

unfoldable pub deploy : {Q M F : Type 0} → Q → M → Deployed Q M F
deploy q m = record { pending = []; queue = q; running = []; store = m; accepted = [] }

pub is_save : {F : Type 0} → Effect F → Bool
is_save (saves s) = true
is_save (publishes id e) = false
is_save (prepares r) = false
is_save (opens c) = false
is_save (cleans c) = false
is_save (records a b c d e k) = false
is_save (audits a b c d e) = false
is_save (violates a) = false

module _ (S : Type 0) {Q C E M D F : Type 0} (i : JobQueue Q C E F) (k : StateStore M D F)
    (fl : Float F) (table : CaseTable) where
  -- A save of a worker succeeds; what happens when it fails is outside this relation.
  pub data Serves : Deployed Q M F → Deployed Q M F → Type 0 where
    posts :
        (d : Deployed Q M F) (uuid : Text) (now t : ℕ) (req : SubmitRequest F) (e : D) (m m' : M)
        → invalid table req ≡ none
        → k.get_state (submission_id uuid) d.store ≡ (err e, m)
        → k.is_not_found e ≡ true
        → k.save_state t (initial_state fl (submission_id uuid) now req) d.store ≡ (none, m')
        → Serves d
            (record d { pending = job_of (submission_id uuid) now req ∷ d.pending; store = m' })
    refuses :
        (d : Deployed Q M F) (uuid : Text) (now t : ℕ) (req : SubmitRequest F) (e : D) (m : M)
        → invalid table req ≡ none
        → k.save_state t (initial_state fl (submission_id uuid) now req) d.store ≡ (some e, m)
        → Serves d (record d { store = m })
    enqueues :
        (d : Deployed Q M F) (before after : List (SubmissionJob F)) (job : SubmissionJob F) (c : C)
        (q : Q)
        → d.pending ≡ before ++ job ∷ after
        → i.enqueue c job d.queue ≡ some (none, q)
        → Serves d (record d {
          pending = before ++ after;
          queue = q;
          accepted = i.stored c job ∷ d.accepted;
        })
    drops :
        (d : Deployed Q M F) (before after : List (SubmissionJob F)) (job : SubmissionJob F) (c : C)
        (e : E) (q : Q)
        → d.pending ≡ before ++ job ∷ after
        → i.enqueue c job d.queue ≡ some (some e, q)
        → Serves d (record d { pending = before ++ after; queue = q })
    takes :
        (d : Deployed Q M F) (env : Env S F) (os : S) (job : SubmissionJob F) (c : C) (q : Q)
        → i.dequeue c d.queue ≡ some (ok job, q)
        → Serves d (record d { queue = q; running = start fl env os job ∷ d.running })
    waits :
        (d : Deployed Q M F) (c : C) (e : E) (q : Q)
        → i.dequeue c d.queue ≡ some (err e, q)
        → Serves d (record d { queue = q })
    stores :
        (d : Deployed Q M F) (before after : List (Run F)) (job : SubmissionJob F)
        (s : SubmissionState F) (rest : List (Effect F)) (m : M)
        → d.running ≡ before ++ record { job = job; rest = saves s ∷ rest } ∷ after
        → k.save_state s.updated_at s d.store ≡ (none, m)
        → Serves d
            (record d { running = before ++ record { job = job; rest = rest } ∷ after; store = m })
    acts :
        (d : Deployed Q M F) (before after : List (Run F)) (job : SubmissionJob F) (e : Effect F)
        (rest : List (Effect F))
        → d.running ≡ before ++ record { job = job; rest = e ∷ rest } ∷ after
        → is_save e ≡ false
        → Serves d (record d { running = before ++ record { job = job; rest = rest } ∷ after })
    ends :
        (d : Deployed Q M F) (before after : List (Run F)) (job : SubmissionJob F)
        → d.running ≡ before ++ record { job = job; rest = [] } ∷ after
        → Serves d (record d { running = before ++ after })
    reads :
        (d : Deployed Q M F) (id : Text) (s : SubmissionState F) (m : M)
        → k.get_state id d.store ≡ (ok s, m)
        → Serves d (record d { store = m })
    misses :
        (d : Deployed Q M F) (id : Text) (e : D) (m : M)
        → k.get_state id d.store ≡ (err e, m)
        → Serves d (record d { store = m })
    measures :
        (d : Deployed Q M F) (n : ℕ) (q : Q)
        → i.queue_depth d.queue ≡ (ok n, q)
        → Serves d (record d { queue = q })
    closes : (d : Deployed Q M F) → Serves d (record d { queue = i.close d.queue })

  pub data Reaches (d : Deployed Q M F) : Deployed Q M F → Type 0 where
    here : Reaches d d
    next : {b c : Deployed Q M F} → Reaches d b → Serves b c → Reaches d c
