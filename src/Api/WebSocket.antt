-- ===== src/Api/WebSocket.antt =====
-- pkg/api/websocket.go: the stream of a submission's events. The upgrade, the encoding and the writes
-- are the work of the WebSocket and JSON libraries; their results are arguments.
use remote_runtime_engine.Base.{
  ℕ, Bool, true, false, ◌||◌, not, Option, none, some, List, [], ◌∷◌, ◌++◌, reverse, drop_while,
  trim_right, Text, codes, Float, ◌==◌, ltb, length, if◌then◌else◌, text_eq,
}
use remote_runtime_engine.Events.{is_final, ExecutionEvent, plain_event}
use remote_runtime_engine.Store.{SubmissionState}

-- `strings.Split(s, "/")`, with the part that has been read so far.
unfoldable pub split_from : Text → Text → List Text
split_from part [] = part ∷ []
split_from part (c ∷ s) =
    let whole = part ∷ split_from [] s in
    let rest = split_from (part ++ c ∷ []) s in if c == 47 then whole else rest

unfoldable pub split_slash : Text → List Text
unfolding split_from
split_slash s = split_from [] s

-- `strings.Trim(s, "/")`.
abbrev pub is_slash : ℕ → Bool
is_slash c = c == 47

unfoldable pub trim_slash : Text → Text
trim_slash s = trim_right is_slash (drop_while is_slash s)

-- The part before the last one, where there are four at least and the last is `ws`.
unfoldable pub id_of_parts : List Text → Option Text
id_of_parts parts = elim (reverse parts) [
  | [] ↦ none
  | last ∷ before ↦ elim before [
    | [] ↦ none
    | id ∷ r ↦ if ltb (length parts) 4 || not (text_eq last (codes "ws")) then none else some id
  ]
]

-- The submission of a path, if it is the route of a stream.
unfoldable pub ws_submission_id : Text → Option Text
unfolding split_slash trim_slash id_of_parts
ws_submission_id path = id_of_parts (split_slash (trim_slash path))

-- The event that stands for a finished state, at the time `now`.
unfoldable pub snapshot : {F : Type 0} → Float F → ℕ → SubmissionState F → ExecutionEvent F
snapshot fl now st = record (plain_event fl st.submission_id st.status) {
  verdict = some st.verdict;
  current_test_case = st.total_test_cases;
  total_test_cases = st.total_test_cases;
  wall_time_ms = st.total_wall_time_ms;
  cpu_time_ms = st.total_cpu_time_ms;
  peak_memory_mb = st.peak_memory_mb;
  compilation = st.compilation;
  error_details = st.error_details;
  timestamp = now;
}

-- What the server writes to the client; a write of an event or a ping that fails is not among it.
pub data Frame (F : Type 0) : Type 0 where
  text : ExecutionEvent F → Frame F
  subscribe_error ping normal_closure : Frame F

-- What wakes the loop: the end of the context or of the client, a tick with the result of its write, an
-- event with the results of its encoding and its write, or the closed channel.
pub data Wake (F : Type 0) : Type 0 where
  ctx_done client_gone channel_closed : Wake F
  tick : Bool → Wake F
  event : ExecutionEvent F → Bool → Bool → Wake F

unfoldable pub and_then :
    {F : Type 0} → ExecutionEvent F → List (Frame F) × Bool → List (Frame F) × Bool
and_then e (fs, over) = (text e ∷ fs, over)

-- The loop over the wakes: the frames that it writes, and whether the handler has returned.
unfoldable pub stream : {F : Type 0} → List (Wake F) → List (Frame F) × Bool
unfolding is_final and_then
stream [] = ([], false)
stream (ctx_done ∷ ws) = ([], true)
stream (client_gone ∷ ws) = ([], true)
stream (channel_closed ∷ ws) = ([], true)
stream (tick false ∷ ws) = ([], true)
stream (tick true ∷ ws) = let (fs, over) = stream ws in (ping ∷ fs, over)
stream (event e false written ∷ ws) = stream ws
stream (event e true false ∷ ws) = ([], true)
stream (event e true true ∷ ws) =
    let rest = and_then e (stream ws) in
    if is_final e.status then (text e ∷ normal_closure ∷ [], true) else rest

-- What the handler does to the bus.
pub data BusCall : Type 0 where
  subscribes unsubscribes : BusCall

-- A request that is no stream is answered by 400, or not at all where its upgrade fails.
pub data Handled (F : Type 0) : Type 0 where
  bad_route not_upgraded : Handled F
  handled : List (Frame F) → List BusCall → Bool → Handled F

-- The loop with its subscription; the deferred `unsubscribe` runs when the loop returns.
unfoldable pub after_subscribe : {F : Type 0} → Bool → List (Wake F) → Handled F
after_subscribe false ws = handled (subscribe_error ∷ []) [] true
after_subscribe true ws =
    let (fs, over) = stream ws in
    handled fs (if over then subscribes ∷ unsubscribes ∷ [] else subscribes ∷ []) over

-- What follows the read of the state; an error of the read counts as no state.
unfoldable pub after_read :
    {F : Type 0} → Float F → ℕ → Option (SubmissionState F) → Bool → List (Wake F) → Handled F
unfolding snapshot is_final after_subscribe
after_read fl now none subscribed ws = after_subscribe subscribed ws
after_read fl now (some st) subscribed ws =
    if is_final st.status
    then handled (text (snapshot fl now st) ∷ []) [] true
    else after_subscribe subscribed ws

-- What follows the check of the route: the upgrade.
unfoldable pub after_route :
    {F : Type 0}
    → Float F
    → Bool
    → ℕ
    → (Text → Option (SubmissionState F))
    → Bool
    → List (Wake F)
    → Option Text
    → Handled F
unfolding after_read
after_route fl upgraded now read subscribed ws none = bad_route
after_route fl false now read subscribed ws (some id) = not_upgraded
after_route fl true now read subscribed ws (some id) = after_read fl now (read id) subscribed ws

-- `HandleWebSocket` of a path: whether the upgrade succeeds, the time, what the store reads for a
-- submission, whether the bus subscribes, and what wakes the loop.
unfoldable pub handle_web_socket :
    {F : Type 0}
    → Float F
    → Text
    → Bool
    → ℕ
    → (Text → Option (SubmissionState F))
    → Bool
    → List (Wake F)
    → Handled F
unfolding ws_submission_id after_route
handle_web_socket fl path upgraded now read subscribed ws =
    after_route fl upgraded now read subscribed ws (ws_submission_id path)
