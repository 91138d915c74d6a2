-- ===== src/Worker/Broadcast.antt =====
-- The events of a job of pkg/worker/worker.go on the bus of pkg/events/memory_bus.go.
use remote_runtime_engine.Base.{
  ℕ, suc, ◌+◌, ◌<◌, ◌≤◌, ◌≡◌, refl, sym, ap, subst, ◌∙◌, true, ◌&&◌, not, Option, none, some, List,
  [], ◌∷◌, ◌++◌, reverse, reverse-cons, append-nil, append_assoc, Text, text_eq, Float, length,
  length-append, All, All-reverse, arith, if◌then◌else◌,
}
use remote_runtime_engine.Queue.{SubmissionJob}
use remote_runtime_engine.Events.{ExecutionEvent}
use remote_runtime_engine.Events.MemoryBus.{
  Channel, Heap, MemoryEventBus, new_memory_event_bus, stamped, publish,
}
use remote_runtime_engine.Events.Delivery.{Reach, publishes}
use remote_runtime_engine.Events.Exact.Publish.{accept, listens, IsPublished, publish-reached}
use remote_runtime_engine.Worker
use remote_runtime_engine.Worker.{
  World, Env, Effect, saves, prepares, opens, cleans, records, audits, violates,
}
use remote_runtime_engine.Worker.Process.{process_job}
use remote_runtime_engine.Worker.Evaluate.{cases_of}
use remote_runtime_engine.Worker.Effects.{IsProper, process_job-IsProper}
use remote_runtime_engine.Worker.Stream.{published, EndsOnce, process_job-EndsOnce}
use remote_runtime_engine.Worker.Volume.{volume, process_job-volume}

module _ {F : Type 0} where
  -- The bus after the publications of some effects, the oldest first, each at the time that its event
  -- bears; none is a panic.
  unfoldable pub broadcast : List (Effect F) → MemoryEventBus F → Option (MemoryEventBus F)
  broadcast [] bus = some bus
  broadcast (Worker.publishes id e ∷ rest) bus = elim (publish e.timestamp id (some e) bus) [
    | none ↦ none
    | some bus' ↦ broadcast rest bus'
  ]
  broadcast (_ ∷ rest) bus = broadcast rest bus

  -- The events among effects, the oldest first.
  events_of : List (Effect F) → List (ExecutionEvent F)
  events_of [] = []
  events_of (Worker.publishes id e ∷ rest) = e ∷ events_of rest
  events_of (_ ∷ rest) = events_of rest

  events_of-snoc :
      (xs : List (Effect F)) (e : Effect F)
      → events_of (xs ++ e ∷ []) ≡ events_of xs ++ events_of (e ∷ [])
  unfolding events_of
  events_of-snoc [] e = refl
  events_of-snoc (Worker.publishes id x ∷ xs) e = ap (λ es. x ∷ es) (events_of-snoc xs e)
  events_of-snoc (saves s ∷ xs) e = events_of-snoc xs e
  events_of-snoc (prepares r ∷ xs) e = events_of-snoc xs e
  events_of-snoc (opens c ∷ xs) e = events_of-snoc xs e
  events_of-snoc (cleans c ∷ xs) e = events_of-snoc xs e
  events_of-snoc (records a b c d f g ∷ xs) e = events_of-snoc xs e
  events_of-snoc (audits a b c d f ∷ xs) e = events_of-snoc xs e
  events_of-snoc (violates a ∷ xs) e = events_of-snoc xs e

  events_of-reverse_cons :
      (e : Effect F) (log : List (Effect F))
      → events_of (reverse (e ∷ log)) ≡ events_of (reverse log) ++ events_of (e ∷ [])
  events_of-reverse_cons e log = ap events_of (reverse-cons e log) ∙ events_of-snoc (reverse log) e

  events_of-reverse : (log : List (Effect F)) → events_of (reverse log) ≡ published log
  unfolding published events_of
  events_of-reverse [] = refl
  events_of-reverse (Worker.publishes id e ∷ log) =
      events_of-reverse_cons (Worker.publishes id e) log
      ∙ ap (λ es. es ++ e ∷ []) (events_of-reverse log)
  events_of-reverse (saves s ∷ log) =
      events_of-reverse_cons (saves s) log ∙ append-nil _ ∙ events_of-reverse log
  events_of-reverse (prepares r ∷ log) =
      events_of-reverse_cons (prepares r) log ∙ append-nil _ ∙ events_of-reverse log
  events_of-reverse (opens c ∷ log) =
      events_of-reverse_cons (opens c) log ∙ append-nil _ ∙ events_of-reverse log
  events_of-reverse (cleans c ∷ log) =
      events_of-reverse_cons (cleans c) log ∙ append-nil _ ∙ events_of-reverse log
  events_of-reverse (records a b c d f g ∷ log) =
      events_of-reverse_cons (records a b c d f g) log ∙ append-nil _ ∙ events_of-reverse log
  events_of-reverse (audits a b c d f ∷ log) =
      events_of-reverse_cons (audits a b c d f) log ∙ append-nil _ ∙ events_of-reverse log
  events_of-reverse (violates a ∷ log) =
      events_of-reverse_cons (violates a) log ∙ append-nil _ ∙ events_of-reverse log

  length-published : (log : List (Effect F)) → length (published log) ≡ volume log
  unfolding published volume
  length-published [] = refl
  length-published (Worker.publishes id e ∷ log) =
      omega (arith, length-append (published log) (e ∷ []), length-published log)
  length-published (saves s ∷ log) = length-published log
  length-published (prepares r ∷ log) = length-published log
  length-published (opens c ∷ log) = length-published log
  length-published (cleans c ∷ log) = length-published log
  length-published (records a b c d f g ∷ log) = length-published log
  length-published (audits a b c d f ∷ log) = length-published log
  length-published (violates a ∷ log) = length-published log

  -- An event that a job publishes needs no stamp.
  stamped-proper :
      (id : Text) (e : ExecutionEvent F) → e.submission_id ≡ id → stamped e.timestamp id e ≡ e
  unfolding stamped
  stamped-proper id e h = ground (arith, h)

  accept-room :
      (e : ExecutionEvent F) (c : Channel F)
      → length c.buffer < 64
      → ((accept e c).buffer ≡ c.buffer ++ e ∷ [])
        × ((accept e c).owner ≡ c.owner)
        × ((accept e c).is_open ≡ c.is_open)
  unfolding accept
  accept-room e c h = (ground (arith, h), ground (arith, h), ground (arith, h))

  -- What one publication does to a channel that listens and has room.
  record IsDelivered (id : Text) (e : ExecutionEvent F) (ch : ℕ) (bus bus' : MemoryEventBus F)
      : Type 0 where
    buffer : (bus'.heap ch).buffer ≡ (bus.heap ch).buffer ++ e ∷ []
    listening : listens id bus' ch ≡ true
    made : bus'.made ≡ bus.made

  publish-IsDelivered :
      (id : Text) (e : ExecutionEvent F) (ch : ℕ) (bus bus' : MemoryEventBus F)
      → e.submission_id ≡ id
      → ch < bus.made
      → listens id bus ch ≡ true
      → length (bus.heap ch).buffer < 64
      → IsPublished e.timestamp id e bus bus'
      → IsDelivered id e ch bus bus'
  unfolding listens
  publish-IsDelivered id e ch bus bus' own lt on fits p =
      let (b, o, k) = accept-room e (bus.heap ch) fits in
      let at : bus'.heap ch ≡ accept e (bus.heap ch) =
        p.heap ch lt
        ∙ ap (λ t. if t then accept (stamped e.timestamp id e) (bus.heap ch) else bus.heap ch) on
        ∙ ap (λ x. accept x (bus.heap ch)) (stamped-proper id e own) in
      record {
        buffer = ap (λ c. Channel.buffer c) at ∙ b;
        listening =
            ap (λ c. not c && (text_eq (bus'.heap ch).owner id && (bus'.heap ch).is_open)) p.closed
            ∙ ap (λ x. not bus.closed && (text_eq x id && (bus'.heap ch).is_open))
                (ap (λ c. Channel.owner c) at ∙ o)
            ∙ ap (λ x. not bus.closed && (text_eq (bus.heap ch).owner id && x))
                (ap (λ c. Channel.is_open c) at ∙ k)
            ∙ on;
        made = p.made;
      }

  module _ (heap : Heap F) (j : SubmissionJob F) (ch : ℕ) where
    abbrev Delivers : List (Effect F) → MemoryEventBus F → Type 0
    Delivers effects bus =
        (bus' : MemoryEventBus F) × (broadcast effects bus ≡ some bus')
        × ((bus'.heap ch).buffer ≡ (bus.heap ch).buffer ++ events_of effects)

    broadcast-Delivers :
        (effects : List (Effect F)) (bus : MemoryEventBus F)
        → Reach (new_memory_event_bus heap) bus
        → ch < bus.made
        → listens j.submission_id bus ch ≡ true
        → All (IsProper j) effects
        → length (bus.heap ch).buffer + length (events_of effects) ≤ 64
        → Delivers effects bus
    unfolding broadcast events_of
    broadcast-Delivers [] bus r lt on v fits = (bus, refl, sym (append-nil _))
    broadcast-Delivers (Worker.publishes id e ∷ rest) bus r lt on v fits =
        let (bus₁, eq, p) = publish-reached heap bus r e.timestamp id e in
        let same : e.submission_id ≡ id = v.0.1 ∙ sym v.0.0 in
        let on' : listens id bus ch ≡ true = ap (λ x. listens x bus ch) v.0.0 ∙ on in
        let d = publish-IsDelivered id e ch bus bus₁ same lt on' (omega (arith, fits)) p in
        let grown : length (bus₁.heap ch).buffer ≡ suc (length (bus.heap ch).buffer) =
          ap length d.buffer ∙ omega (arith, length-append (bus.heap ch).buffer (e ∷ [])) in
        let (bus', eq', b) =
          broadcast-Delivers rest bus₁ (publishes e.timestamp id (some e) r eq)
            (subst (λ n. ch < n) (sym d.made) lt)
            (ap (λ x. listens x bus₁ ch) (sym v.0.0) ∙ d.listening) v.1
            (omega (arith, grown, fits)) in
        (
          bus',
          rw (eq, broadcast) eq',
          b
              ∙ ap (λ es. es ++ events_of rest) d.buffer
              ∙ append_assoc (bus.heap ch).buffer (e ∷ []) (events_of rest),
        )
    broadcast-Delivers (saves s ∷ rest) bus r lt on v fits =
        broadcast-Delivers rest bus r lt on v.1 fits
    broadcast-Delivers (prepares q ∷ rest) bus r lt on v fits =
        broadcast-Delivers rest bus r lt on v.1 fits
    broadcast-Delivers (opens c ∷ rest) bus r lt on v fits =
        broadcast-Delivers rest bus r lt on v.1 fits
    broadcast-Delivers (cleans c ∷ rest) bus r lt on v fits =
        broadcast-Delivers rest bus r lt on v.1 fits
    broadcast-Delivers (records a b c d f g ∷ rest) bus r lt on v fits =
        broadcast-Delivers rest bus r lt on v.1 fits
    broadcast-Delivers (audits a b c d f ∷ rest) bus r lt on v fits =
        broadcast-Delivers rest bus r lt on v.1 fits
    broadcast-Delivers (violates a ∷ rest) bus r lt on v fits =
        broadcast-Delivers rest bus r lt on v.1 fits

module _ {S F : Type 0} (fl : Float F) (env : Env S F) (j : SubmissionJob F) (os : S)
    (heap : Heap F) (bus : MemoryEventBus F) (ch : ℕ) where
  -- A client that is subscribed to a submission before its job starts, with nothing waiting in its
  -- channel, misses nothing of a job with at most 30 cases, even if it reads nothing before the end:
  -- the publications of the job do not panic, and then its channel holds all the events of the job in
  -- their order, of which the last is final and no other. Nothing else is called on the bus between.
  pub process_job-broadcast :
      Reach (new_memory_event_bus heap) bus
      → ch < bus.made
      → listens j.submission_id bus ch ≡ true
      → (bus.heap ch).buffer ≡ []
      → length (cases_of j) ≤ 30
      → (let log = (process_job fl env (some j) (record { os = os; log = [] })).1.log in
          (bus' : MemoryEventBus F) × (broadcast (reverse log) bus ≡ some bus')
          × ((bus'.heap ch).buffer ≡ published log)
          × EndsOnce (bus'.heap ch).buffer)
  unfolding volume
  process_job-broadcast r lt on blank few =
      let w : World S F = record { os = os; log = [] } in
      let log = (process_job fl env (some j) w).1.log in
      let empty : length (bus.heap ch).buffer ≡ 0 = ap length blank in
      let many : length (events_of (reverse log)) ≡ volume log =
        ap length (events_of-reverse log) ∙ length-published log in
      let (bus', eq, b) =
        broadcast-Delivers heap j ch (reverse log) bus r lt on
          (All-reverse (IsProper j) log (process_job-IsProper fl env j w tt))
          (omega (arith, empty, many, few, process_job-volume fl env j w)) in
      let all : (bus'.heap ch).buffer ≡ published log =
        b ∙ ap (λ es. es ++ events_of (reverse log)) blank ∙ events_of-reverse log in
      (bus', eq, all, subst EndsOnce (sym all) (process_job-EndsOnce fl env j os))
