-- ===== src/Api/Live.antt =====
-- What the stream of pkg/api/websocket.go tells of a job of pkg/worker/worker.go: to a client that is
-- there from the start, and to one that comes after the end.
use remote_runtime_engine.Base.{
  ℕ, ◌≡◌, refl, sym, ap, subst, ◌∙◌, Bool, true, false, Option, none, some, List, [], ◌∷◌, ◌++◌,
  append-nil, append_assoc, reverse-append, reverse-reverse, trim_right, Text, codes, text_eq,
  text_eq_refl, Float, Result, ok, err, All,
}
use remote_runtime_engine.Events.{is_final, ExecutionEvent}
use remote_runtime_engine.Queue.{SubmissionJob}
use remote_runtime_engine.Store.{SubmissionState, MemoryStore, get_state}
use remote_runtime_engine.Worker.{Env}
use remote_runtime_engine.Worker.Process.{process_job}
use remote_runtime_engine.Worker.Outcome.{Settled, has_failed, has_completed}
use remote_runtime_engine.Worker.Stored.{stored, process_job-stored}
use remote_runtime_engine.Worker.Stream.{published, process_job-EndsOnce}
use remote_runtime_engine.Api.WebSocket.{
  split_from, split_slash, is_slash, trim_slash, id_of_parts, ws_submission_id, snapshot, Frame,
  text, ping, normal_closure, Wake, tick, event, and_then, stream, handled, subscribes,
  unsubscribes, after_subscribe, after_read, after_route, handle_web_socket,
}

-- The URL that the answer to a submission gives.
abbrev pub stream_url : Text → Text
stream_url id = codes "/api/v1/submissions/" ++ (id ++ codes "/ws")

abbrev pub HasNoSlash : Text → Type 0
HasNoSlash id = All (λ c. is_slash c ≡ false) id

split_from-append :
    (part id s : Text)
    → HasNoSlash id
    → split_from part (id ++ 47 ∷ s) ≡ (part ++ id) ∷ split_from [] s
unfolding split_from
split_from-append part [] s h = ap (λ t. t ∷ split_from [] s) (sym (append-nil part))
split_from-append part (c ∷ id) s h = simp (h.0) (
    split_from-append (part ++ c ∷ []) id s h.1
    ∙ ap (λ t. t ∷ split_from [] s) (append_assoc part (c ∷ []) id))

trim_right-append :
    (p : ℕ → Bool) (s : Text) (c : ℕ) → p c ≡ false → trim_right p (s ++ c ∷ []) ≡ s ++ c ∷ []
trim_right-append p s c h =
    rw (reverse-append s (c ∷ []), h, sym (reverse-append s (c ∷ [])))
      (reverse-reverse (s ++ c ∷ []))

trim_slash-stream_url :
    (id : Text) → trim_slash (stream_url id) ≡ codes "api/v1/submissions/" ++ (id ++ codes "/ws")
unfolding trim_slash
trim_slash-stream_url id =
    let e : codes "api/v1/submissions/" ++ (id ++ codes "/ws")
        ≡ (codes "api/v1/submissions/" ++ (id ++ codes "/w")) ++ 115 ∷ [] =
      ap (λ t. codes "api/v1/submissions/" ++ t) (sym (append_assoc id (codes "/w") (115 ∷ [])))
      ∙ sym (append_assoc (codes "api/v1/submissions/") (id ++ codes "/w") (115 ∷ [])) in
    ap (trim_right is_slash) e
    ∙ trim_right-append is_slash (codes "api/v1/submissions/" ++ (id ++ codes "/w")) 115 refl
    ∙ sym e

-- The URL that a submission is answered with leads to the stream of that submission, if the
-- identifier has no slash.
pub ws_submission_id-stream_url :
    (id : Text) → HasNoSlash id → ws_submission_id (stream_url id) ≡ some id
unfolding ws_submission_id split_slash split_from id_of_parts text_eq
ws_submission_id-stream_url id h =
    let parts : List Text → List Text = λ ps. codes "api" ∷ codes "v1" ∷ codes "submissions" ∷ ps in
    ap (λ t. id_of_parts (split_slash t)) (trim_slash-stream_url id)
    ∙ ap (λ ps. id_of_parts (parts ps)) (split_from-append [] id (codes "ws") h)

-- `err == nil` of a read.
abbrev pub found : {E A : Type 0} → Result E A → Option A
found (ok a) = some a
found (err e) = none

-- The events among the frames.
abbrev pub told : {F : Type 0} → List (Frame F) → List (ExecutionEvent F)
told [] = []
told (text e ∷ fs) = e ∷ told fs
told (_ ∷ fs) = told fs

-- The wakes bring the events in their order and beats between them, and all is written; what comes
-- after the events is left open.
abbrev pub Carries : {F : Type 0} → List (ExecutionEvent F) → List (Wake F) → Type 0
Carries [] ws = Unit {0}
Carries (e ∷ es) [] = ⊥
Carries (e ∷ es) (tick true ∷ ws) = Carries (e ∷ es) ws
Carries (e ∷ es) (event f true true ∷ ws) = (f ≡ e) × Carries es ws
Carries (e ∷ es) (_ ∷ ws) = ⊥

module _ {F : Type 0} where
  -- All the events of a stream, the last one before the frame that closes the connection.
  abbrev pub Closes : List (ExecutionEvent F) → List (Frame F) × Bool → Type 0
  Closes es (fs, over) =
      (told fs ≡ es)
      × (over ≡ true)
      × ((before : List (Frame F)) × (e : ExecutionEvent F) × (fs
            ≡ before ++ (text e ∷ normal_closure ∷ [])))

  ticked :
      (es : List (ExecutionEvent F)) (r : List (Frame F) × Bool)
      → Closes es r
      → Closes es (ping ∷ r.0, r.1)
  ticked es r h = (h.0, h.1, (ping ∷ h.2.0, h.2.1, ap (λ fs. ping ∷ fs) h.2.2))

  texted :
      (i e : ExecutionEvent F) (es : List (ExecutionEvent F)) (r : List (Frame F) × Bool)
      → e ≡ i
      → Closes es r
      → Closes (i ∷ es) (and_then e r)
  unfolding and_then
  texted i e es r same h = (
    ap (λ t. e ∷ t) h.0 ∙ ap (λ x. x ∷ es) same,
    h.1,
    (text e ∷ h.2.0, h.2.1, ap (λ fs. text e ∷ fs) h.2.2),
  )

  stream-Closes :
      (first : List (ExecutionEvent F)) (last : ExecutionEvent F) (ws : List (Wake F))
      → All (λ e. is_final e.status ≡ false) first
      → is_final last.status ≡ true
      → Carries (first ++ last ∷ []) ws
      → Closes (first ++ last ∷ []) (stream ws)
  unfolding stream
  stream-Closes [] last [] u f c = absurd c
  stream-Closes [] last (tick true ∷ ws) u f c =
      ticked (last ∷ []) (stream ws) (stream-Closes [] last ws u f c)
  stream-Closes [] last (event e true true ∷ ws) u f c =
      let k : is_final e.status ≡ true = ap (λ x. is_final x.status) c.0 ∙ f in
      simp (k) (ap (λ x. x ∷ []) c.0, refl, ([], e, refl))
  stream-Closes [] last (_ ∷ ws) u f c = absurd c
  stream-Closes (i ∷ first) last [] u f c = absurd c
  stream-Closes (i ∷ first) last (tick true ∷ ws) u f c =
      ticked (i ∷ (first ++ last ∷ [])) (stream ws) (stream-Closes (i ∷ first) last ws u f c)
  stream-Closes (i ∷ first) last (event e true true ∷ ws) u f c =
      let k : is_final e.status ≡ false = ap (λ x. is_final x.status) c.0 ∙ u.0 in
      simp (k)
        (texted i e (first ++ last ∷ []) (stream ws) c.0 (stream-Closes first last ws u.1 f c.1))
  stream-Closes (i ∷ first) last (_ ∷ ws) u f c = absurd c

handle_web_socket-stream_url :
    {F : Type 0} (fl : Float F) (id : Text) (now : ℕ) (read : Text → Option (SubmissionState F))
    (subscribed : Bool) (ws : List (Wake F))
    → HasNoSlash id
    → handle_web_socket fl (stream_url id) true now read subscribed ws
      ≡ after_read fl now (read id) subscribed ws
unfolding handle_web_socket after_route
handle_web_socket-stream_url fl id now read subscribed ws h =
    ap (after_route fl true now read subscribed ws) (ws_submission_id-stream_url id h)

after_read-final :
    {F : Type 0} (fl : Float F) (now : ℕ) (s : SubmissionState F) (subscribed : Bool)
    (ws : List (Wake F))
    → is_final s.status ≡ true
    → after_read fl now (some s) subscribed ws ≡ handled (text (snapshot fl now s) ∷ []) [] true
unfolding after_read
after_read-final fl now s subscribed ws h = simp (h) refl

after_read-unfinished :
    {F : Type 0} (fl : Float F) (now : ℕ) (read : Option (SubmissionState F)) (subscribed : Bool)
    (ws : List (Wake F))
    → ((s : SubmissionState F) → read ≡ some s → is_final s.status ≡ false)
    → after_read fl now read subscribed ws ≡ after_subscribe subscribed ws
unfolding after_read
after_read-unfinished fl now none subscribed ws h = refl
after_read-unfinished fl now (some s) subscribed ws h = rw (h s refl) refl

Settled-is_final :
    {F : Type 0} (fl : Float F) (j : SubmissionJob F) (s : SubmissionState F)
    → Settled fl j s
    → is_final s.status ≡ true
unfolding is_final
Settled-is_final fl j s (has_failed e) = ap is_final e
Settled-is_final fl j s (has_completed e a) = ap is_final e

module _ {S F : Type 0} (fl : Float F) (env : Env S F) (j : SubmissionJob F) where
  -- A client that has upgraded and subscribed before its job begins, at the path of an identifier
  -- without a slash, where the state that the handler reads, if any, is not a final one, as the QUEUED
  -- state that is saved before a job is enqueued, where the wakes of the handler deliver the events of
  -- the job in their order, with beats between them, and where the beats and events are written: it
  -- is sent all the events of the job in their order, the last of them before the frame that closes
  -- the connection; the handler then returns, and has unsubscribed.
  pub handle_web_socket-process_job :
      (os : S) (now : ℕ) (read : Text → Option (SubmissionState F)) (ws : List (Wake F))
      → HasNoSlash j.submission_id
      → ((s : SubmissionState F) → read j.submission_id ≡ some s → is_final s.status ≡ false)
      → Carries (published (process_job fl env (some j) (record { os = os; log = [] })).1.log) ws
      → (fs : List (Frame F)) × (handle_web_socket fl
            (stream_url j.submission_id)
            true
            now
            read
            true
            ws
          ≡ handled fs (subscribes ∷ unsubscribes ∷ []) true)
        × Closes
            (published (process_job fl env (some j) (record { os = os; log = [] })).1.log)
            (fs, true)
  unfolding after_subscribe
  handle_web_socket-process_job os now read ws h k c =
      let (first, last, es, u, f) = process_job-EndsOnce fl env j os in
      let c' = stream-Closes first last ws u f (subst (λ l. Carries l ws) es c) in
      (
        (stream ws).0,
        handle_web_socket-stream_url fl j.submission_id now read true ws h
            ∙ after_read-unfinished fl now (read j.submission_id) true ws k
            ∙ rw (c'.1) refl,
        (c'.0 ∙ sym es, refl, c'.2),
      )

  -- A client that comes after its job, to the store that the job has written, is sent one event with
  -- the status, the verdict and the totals of the settled state, and the handler returns without a
  -- subscription.
  pub handle_web_socket-stored :
      (os : S) (now : ℕ) (m : MemoryStore F) (subscribed : Bool) (ws : List (Wake F))
      → HasNoSlash j.submission_id
      → (s : SubmissionState F) × Settled fl j s
        × (handle_web_socket fl
              (stream_url j.submission_id)
              true
              now
              (λ id. found (
                get_state id
                  (stored (process_job fl env (some j) (record { os = os; log = [] })).1.log m)))
              subscribed
              ws
            ≡ handled (text (snapshot fl now s) ∷ []) [] true)
        × (is_final (snapshot fl now s).status ≡ true)
  unfolding snapshot
  handle_web_socket-stored os now m subscribed ws h =
      let (s, v, e) = process_job-stored fl env j os m j.submission_id in
      (
        s,
        v,
        handle_web_socket-stream_url fl j.submission_id now
              (λ id. found (
                get_state id
                  (stored (process_job fl env (some j) (record { os = os; log = [] })).1.log m)))
              subscribed ws h
            ∙ rw (e, text_eq_refl j.submission_id)
                (after_read-final fl now s subscribed ws (Settled-is_final fl j s v)),
        Settled-is_final fl j s v,
      )
