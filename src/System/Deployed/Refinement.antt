-- ===== src/System/Deployed/Refinement.antt =====
-- The deployed system does what the abstract one does.
use remote_runtime_engine.Base.{
  ◌≡◌, refl, sym, ap, ◌∙◌, subst, false, Option, none, List, [], ◌∷◌, ◌++◌, Text, Float, CaseTable,
}
use remote_runtime_engine.Queue.{SubmissionJob}
use remote_runtime_engine.Queue.Contract.{JobQueue, IsFifo}
use remote_runtime_engine.Store.{SubmissionState}
use remote_runtime_engine.Store.Contract.{StateStore, IsMap}
use remote_runtime_engine.Worker.{
  Effect, publishes, saves, prepares, opens, cleans, records, audits, violates,
}
use remote_runtime_engine.Api.{submission_id, initial_state, job_of}
use remote_runtime_engine.System
use remote_runtime_engine.System.{Run, System, idle, Move, Reach, apply, post, start}
use remote_runtime_engine.System.Deployed.{
  Deployed, deploy, is_save, Serves, posts, refuses, enqueues, drops, takes, waits, stores, acts,
  ends, reads, misses, measures, closes, Reaches, here, next,
}

-- An effect that saves nothing leaves the store.
apply-unsaved :
    {F : Type 0} (e : Effect F) (f : Text → Option (SubmissionState F))
    → is_save e ≡ false
    → apply e f ≡ f
unfolding is_save apply
apply-unsaved (saves s) f h = absurd (cc)
apply-unsaved (publishes id e) f h = refl
apply-unsaved (prepares r) f h = refl
apply-unsaved (opens c) f h = refl
apply-unsaved (cleans c) f h = refl
apply-unsaved (records a b c d e k) f h = refl
apply-unsaved (audits a b c d e) f h = refl
apply-unsaved (violates a) f h = refl

module _ (S : Type 0) {Q C E M D F : Type 0} (i : JobQueue Q C E F) (k : StateStore M D F)
    (R : Q → List (SubmissionJob F) → Type 0) (T : M → (Text → Option (SubmissionState F)) → Type 0)
    (fl : Float F) (table : CaseTable) where
  -- The queue holds the list and the store the map; all else is the same.
  pub record Shows (d : Deployed Q M F) (s : System F) : Type 0 where
    pub queue : R d.queue s.queue
    pub store : T d.store s.store
    pub pending : s.pending ≡ d.pending
    pub running : s.running ≡ d.running
    pub accepted : s.accepted ≡ d.accepted

  store-Shows :
      (d : Deployed Q M F) (s : System F) (m : M)
      → T m s.store
      → Shows d s
      → Shows (record d { store = m }) s
  store-Shows d s m t h = record {
    queue = h.queue;
    store = t;
    pending = h.pending;
    running = h.running;
    accepted = h.accepted;
  }

  queue-Shows :
      (d : Deployed Q M F) (s : System F) (q : Q)
      → R q s.queue
      → Shows d s
      → Shows (record d { queue = q }) s
  queue-Shows d s q r h = record {
    queue = r;
    store = h.store;
    pending = h.pending;
    running = h.running;
    accepted = h.accepted;
  }

  module _ (fifo : IsFifo i R) (is_map : IsMap k T)
      (keeps_id : (c : C) (job : SubmissionJob F)
        → (i.stored c job).submission_id ≡ job.submission_id) where
    -- Every call is a step of the abstract system, or none.
    Serves-Shows :
        (d d' : Deployed Q M F) (s : System F)
        → Serves S i k fl table d d'
        → Shows d s
        → Reach S fl table idle s
        → (s' : System F) × Reach S fl table idle s' × Shows d' s'
    unfolding post apply
    Serves-Shows d _ s (posts _ uuid now t req e m m' v miss nf save) h r =
        let id = submission_id uuid in
        (
          post fl uuid now t req s,
          System.next r (
              System.posts s uuid now t req v
                (is_map.misses id d.store m e s.store miss nf h.store).0),
          record {
            queue = h.queue;
            store = is_map.saves t (initial_state fl id now req) d.store m' s.store save h.store;
            pending = ap (λ js. job_of id now req ∷ js) h.pending;
            running = h.running;
            accepted = h.accepted;
          },
        )
    Serves-Shows d _ s (refuses _ uuid now t req e m v save) h r =
        let state = initial_state fl (submission_id uuid) now req in
        (s, r, store-Shows d s m (is_map.keeps t state d.store m e s.store save h.store) h)
    Serves-Shows d _ s (enqueues _ before after job c q p e) h r = (
      record s {
        pending = before ++ after;
        queue = s.queue ++ i.stored c job ∷ [];
        accepted = i.stored c job ∷ s.accepted;
      },
      System.next r
          (System.enqueues s before after job (i.stored c job) (h.pending ∙ p) (keeps_id c job)),
      record {
        queue = fifo.adds c job d.queue q s.queue e h.queue;
        store = h.store;
        pending = refl;
        running = h.running;
        accepted = ap (λ js. i.stored c job ∷ js) h.accepted;
      },
    )
    Serves-Shows d _ s (drops _ before after job c x q p e) h r = (
      record s { pending = before ++ after },
      System.next r (System.drops s before after job (h.pending ∙ p)),
      record {
        queue = fifo.refuses c job d.queue q x s.queue e h.queue;
        store = h.store;
        pending = refl;
        running = h.running;
        accepted = h.accepted;
      },
    )
    Serves-Shows d _ s (takes _ env os job c q e) h r =
        let (rest, eq, r') = fifo.takes c d.queue q job s.queue e h.queue in
        (
          record s { queue = rest; running = start fl env os job ∷ s.running },
          System.next r (System.takes s env os job rest eq),
          record {
            queue = r';
            store = h.store;
            pending = h.pending;
            running = ap (λ rs. start fl env os job ∷ rs) h.running;
            accepted = h.accepted;
          },
        )
    Serves-Shows d _ s (waits _ c x q e) h r =
        (s, r, queue-Shows d s q (fifo.fails c d.queue q x s.queue e h.queue) h)
    Serves-Shows d _ s (stores _ before after job st rest m p save) h r = (
      record s {
        running = before ++ record { job = job; rest = rest } ∷ after;
        store = apply (saves st) s.store;
      },
      System.next r (System.acts s before after job (saves st) rest (h.running ∙ p)),
      record {
        queue = h.queue;
        store = is_map.saves st.updated_at st d.store m s.store save h.store;
        pending = h.pending;
        running = refl;
        accepted = h.accepted;
      },
    )
    Serves-Shows d _ s (acts _ before after job e rest p unsaved) h r = (
      record s {
        running = before ++ record { job = job; rest = rest } ∷ after;
        store = apply e s.store;
      },
      System.next r (System.acts s before after job e rest (h.running ∙ p)),
      record {
        queue = h.queue;
        store = subst (T d.store) (sym (apply-unsaved e s.store unsaved)) h.store;
        pending = h.pending;
        running = refl;
        accepted = h.accepted;
      },
    )
    Serves-Shows d _ s (ends _ before after job p) h r = (
      record s { running = before ++ after },
      System.next r (System.ends s before after job (h.running ∙ p)),
      record {
        queue = h.queue;
        store = h.store;
        pending = h.pending;
        running = refl;
        accepted = h.accepted;
      },
    )
    Serves-Shows d _ s (reads _ id st m e) h r =
        (s, r, store-Shows d s m ((is_map.finds id st d.store m s.store e h.store).1) h)
    Serves-Shows d _ s (misses _ id x m e) h r =
        (s, r, store-Shows d s m (is_map.fails id d.store m x s.store e h.store) h)
    Serves-Shows d _ s (measures _ n q e) h r =
        (s, r, queue-Shows d s q ((fifo.counts d.queue q n s.queue e h.queue).1) h)
    Serves-Shows d _ s (closes _) h r =
        (s, r, queue-Shows d s (i.close d.queue) (fifo.closes d.queue s.queue h.queue) h)

    module _ (q : Q) (m : M) (empty : R q []) (blank : T m (λ id. none)) where
      -- The deployed system refines the abstract one, whatever queue and store implement the
      -- interfaces, if both are empty at first: every state that it reaches shows one that the abstract
      -- system reaches, with the same jobs pending, with workers and accepted, the list that the queue
      -- holds and the map that the store holds.
      pub deployed_refines :
          (d : Deployed Q M F)
          → Reaches S i k fl table (deploy q m) d
          → (s : System F) × Reach S fl table idle s × Shows d s
      unfolding deploy idle
      deployed_refines _ here = (
        idle,
        System.here,
        record { queue = empty; store = blank; pending = refl; running = refl; accepted = refl },
      )
      deployed_refines d (next {b = b} r step) =
          let (s, p, h) = deployed_refines b r in Serves-Shows b d s step h p
