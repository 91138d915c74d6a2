-- ===== src/System/Tracking/Reached.antt =====
-- Every submission is tracked in every state that is reached.
use remote_runtime_engine.Base.{Float, CaseTable, All, tally, arith}
use remote_runtime_engine.System.{
  System, idle, Move, posts, enqueues, drops, takes, acts, ends, Reach, here, next, start,
}
use remote_runtime_engine.System.Tracking.{load, IsTracked, Consistent}
use remote_runtime_engine.System.Tracking.Runs.{start-IsDue}
use remote_runtime_engine.System.Tracking.Moves.{
  post-Consistent, enqueues-Consistent, drops-Consistent, takes-Consistent,
}
use remote_runtime_engine.System.Tracking.Acts.{acts-Consistent, ends-Consistent}

idle-Consistent : {F : Type 0} (fl : Float F) → Consistent fl idle
unfolding load idle tally
idle-Consistent fl = record {
  single = λ id. omega arith;
  known = λ id h. omega arith;
  due = tt;
  tracked = tt;
}

module _ (S : Type 0) {F : Type 0} (fl : Float F) (table : CaseTable) where
  Move-Consistent : (s t : System F) → Move S fl table s t → Consistent fl s → Consistent fl t
  unfolding start
  Move-Consistent s _ (posts _ uuid now t req v fresh) c =
      post-Consistent fl s c uuid now t req fresh
  Move-Consistent s _ (enqueues _ before after job stored h same) c =
      enqueues-Consistent fl s c before after job stored h same
  Move-Consistent s _ (drops _ before after job h) c = drops-Consistent fl s c before after job h
  Move-Consistent s _ (takes _ env os job rest h) c =
      takes-Consistent fl s c (start fl env os job) rest h (start-IsDue fl env os job s.store)
  Move-Consistent s _ (acts _ before after job e rest h) c =
      acts-Consistent fl s c before after job e rest h
  Move-Consistent s _ (ends _ before after job h) c = ends-Consistent fl s c before after job h

  pub Reach-Consistent : (s : System F) → Reach S fl table idle s → Consistent fl s
  Reach-Consistent _ here = idle-Consistent fl
  Reach-Consistent t (next r m) = Move-Consistent _ t m (Reach-Consistent _ r)

  -- No accepted submission is lost, however requests and workers interleave: in every state reached
  -- from an idle system, each job that the queue accepted waits in the queue, or is with a worker, or
  -- has a settled state in the store, failed or completed with an account of all its cases, and then
  -- no job of its submission is on its way that could overwrite it.
  pub accepted-IsTracked :
      (s : System F) → Reach S fl table idle s → All (IsTracked fl s) s.accepted
  accepted-IsTracked s r = (Reach-Consistent s r).tracked
