-- ===== src/Api.antt =====
-- pkg/api/server.go: the submission handler of the HTTP server. The request comes decoded, and the
-- response stands before it is encoded; both are the work of the HTTP and JSON libraries.
pub mod Submissions
pub mod WebSocket
pub mod Live
pub mod Detail
use remote_runtime_engine.Base.{
  ℕ, Bool, ◌+◌, not, Option, none, some, List, [], ◌∷◌, ◌++◌, Text, codes, ℤ, pos, leb_ℤ, Float,
  Result, ok, err, CaseTable, trim_space, take, length, if◌then◌else◌,
}
use remote_runtime_engine.Models.{accepted}
use remote_runtime_engine.Models.Request.{is_empty}
use remote_runtime_engine.Languages.{get}
use remote_runtime_engine.Sandbox.Docker.{decimal}
use remote_runtime_engine.Queue.{TestCase, SubmissionJob}
use remote_runtime_engine.Events.{EventStatus, ExecutionEvent, plain_event, queued}
use remote_runtime_engine.Store.{SubmissionState, plain_state}

pub record ServerConfig : Type 0 where
  pub addr : Text
  pub max_queue_depth : ℤ

-- The defaults of `NewServer`.
unfoldable pub new_server_config : ServerConfig → ServerConfig
new_server_config cfg = record {
  addr = if is_empty cfg.addr then codes ":8080" else cfg.addr;
  max_queue_depth = if leb_ℤ cfg.max_queue_depth (pos 0) then pos 500 else cfg.max_queue_depth;
}

-- The handlers of the routes; `serve_metrics` is the Prometheus library's.
pub data Handler : Type 0 where
  serve_submissions serve_detail_or_ws serve_health serve_metrics : Handler

-- The patterns that `NewServer` registers.
unfoldable pub routes : List (Text × Handler)
routes =
    (codes "/api/v1/submissions", serve_submissions)
    ∷ (codes "/api/v1/submissions/", serve_detail_or_ws)
    ∷ (codes "/api/v1/health", serve_health)
    ∷ (codes "/metrics", serve_metrics)
    ∷ []

-- How `ListenAndServe` ends.
pub data ListenError : Type 0 where
  server_closed : ListenError
  cannot_listen : Text → ListenError

-- `Start`: a server that was shut down is no error.
unfoldable pub start : Option ListenError → Option Text
start none = none
start (some server_closed) = none
start (some (cannot_listen e)) = some e

pub record SubmitRequest (F : Type 0) : Type 0 where
  pub language : Text
  pub code : Text
  pub time_limit_ms : ℤ
  pub memory_limit_mb : ℤ
  pub cpu_quota : F
  pub pids_limit : ℤ
  pub max_output_bytes : ℤ
  pub sandbox_type : Text
  pub test_cases : List TestCase

pub record SubmitResponse : Type 0 where
  pub submission_id : Text
  pub status : EventStatus
  pub ws_url : Text
  pub enqueued_at : ℕ

pub data Body : Type 0 where
  plain : Text → Body
  json_error : Text → Body
  submitted : SubmitResponse → Body

pub record Response : Type 0 where
  pub status : ℕ
  pub retry_after : Option Text
  pub body : Body

-- `writeJSONError`, which adds the status's own text.
unfoldable pub write_json_error : ℕ → Text → Response
write_json_error status message = record {
  status = status;
  retry_after = none;
  body = json_error message;
}

-- What the handler asks of the queue, the store, the bus, the clock and the UUID library.
pub record Services (S F : Type 0) : Type 0 where
  pub queue_depth : S → Result Text ℤ × S
  pub save_state : SubmissionState F → S → Option Text × S
  pub enqueue : SubmissionJob F → S → Option Text × S
  pub publish : Text → ExecutionEvent F → S → S
  pub new_uuid : S → Text × S
  pub now : S → ℕ × S

-- The calls that change what the server shares, the oldest first.
pub data Call (F : Type 0) : Type 0 where
  saves : SubmissionState F → Call F
  enqueues : SubmissionJob F → Call F
  publishes : Text → ExecutionEvent F → Call F

-- The response to a request that the checks of its code and its language turn away.
unfoldable pub invalid : {F : Type 0} → CaseTable → SubmitRequest F → Option Response
unfolding write_json_error
invalid table req =
    if is_empty (trim_space req.code)
    then some (write_json_error 400 (codes "code cannot be empty"))
    else elim (get table req.language) [ err e ↦ some (write_json_error 400 e) | ok lang ↦ none ]

-- Backpressure: a depth that cannot be read turns nobody away.
unfoldable pub overloaded : ServerConfig → Result Text ℤ → Option Response
unfolding write_json_error
overloaded cfg (err e) = none
overloaded cfg (ok depth) =
    if leb_ℤ cfg.max_queue_depth depth
    then some
        (record (write_json_error 429 (
          codes "Queue capacity exceeded (current depth: "
          ++ (decimal depth
              ++ (codes ", max: "
                  ++ (decimal cfg.max_queue_depth ++ codes "); please retry shortly"))))) {
                    retry_after = some (codes "5");
                  })
    else none

unfoldable pub submission_id : Text → Text
submission_id uuid = codes "sub-" ++ take 12 uuid

unfoldable pub initial_state :
    {F : Type 0} → Float F → Text → ℕ → SubmitRequest F → SubmissionState F
initial_state fl id now req = record (plain_state fl id queued accepted req.language) {
  total_test_cases = length req.test_cases;
  created_at = now;
  updated_at = now;
}

unfoldable pub job_of : {F : Type 0} → Text → ℕ → SubmitRequest F → SubmissionJob F
job_of id now req = record {
  submission_id = id;
  language = req.language;
  code = req.code;
  time_limit_ms = req.time_limit_ms;
  memory_limit_mb = req.memory_limit_mb;
  cpu_quota = req.cpu_quota;
  pids_limit = req.pids_limit;
  max_output_bytes = req.max_output_bytes;
  sandbox_type = req.sandbox_type;
  test_cases = req.test_cases;
  enqueued_at = now;
}

unfoldable pub accepted_response : Text → ℕ → Response
accepted_response id now = record {
  status = 202;
  retry_after = none;
  body = submitted (record {
    submission_id = id;
    status = queued;
    ws_url = codes "/api/v1/submissions/" ++ (id ++ codes "/ws");
    enqueued_at = now;
  });
}

abbrev pub queued_event : {F : Type 0} → Float F → Text → ℕ → ExecutionEvent F
queued_event fl id now = record (plain_event fl id queued) { timestamp = now }

module _ {S F : Type 0} (fl : Float F) (table : CaseTable) (cfg : ServerConfig)
    (srv : Services S F) where
  -- What follows `Enqueue`.
  unfoldable pub announce :
      Text
      → ℕ
      → SubmissionState F
      → SubmissionJob F
      → Option Text
      → S
      → Response × List (Call F) × S
  unfolding write_json_error accepted_response
  announce id now state job (some e) s = (
    write_json_error 500 (codes "Failed to enqueue submission: " ++ e),
    saves state ∷ enqueues job ∷ [],
    s,
  )
  announce id now state job none s = (
    accepted_response id now,
    saves state ∷ enqueues job ∷ publishes id (queued_event fl id now) ∷ [],
    srv.publish id (queued_event fl id now) s,
  )

  -- What follows `SaveState`.
  unfoldable pub hand_over :
      Text
      → ℕ
      → SubmissionState F
      → SubmissionJob F
      → Option Text
      → S
      → Response × List (Call F) × S
  unfolding write_json_error announce
  hand_over id now state job (some e) s = (
    write_json_error 500 (codes "Failed to initialize submission state: " ++ e),
    saves state ∷ [],
    s,
  )
  hand_over id now state job none s =
      let (e, s') = srv.enqueue job s in announce id now state job e s'

  -- A submission that has passed the checks.
  unfoldable pub submit : SubmitRequest F → S → Response × List (Call F) × S
  unfolding submission_id initial_state job_of hand_over
  submit req s =
      let (uuid, s₁) = srv.new_uuid s in
      let (now, s₂) = srv.now s₁ in
      let id = submission_id uuid in
      let (e, s₃) = srv.save_state (initial_state fl id now req) s₂ in
      hand_over id now (initial_state fl id now req) (job_of id now req) e s₃

  unfoldable pub submit_unless :
      Option Response → SubmitRequest F → S → Response × List (Call F) × S
  submit_unless (some r) req s = (r, [], s)
  submit_unless none req s = submit req s

  -- The backpressure check, and what follows it.
  unfoldable pub check_depth : Option Response → SubmitRequest F → S → Response × List (Call F) × S
  unfolding overloaded submit_unless
  check_depth (some r) req s = (r, [], s)
  check_depth none req s =
      let (depth, s') = srv.queue_depth s in submit_unless (overloaded cfg depth) req s'

  -- `handleSubmissions`, for a method that is POST or not and the decoded body.
  unfoldable pub handle_submissions :
      Bool → Result Text (SubmitRequest F) → S → Response × List (Call F) × S
  unfolding write_json_error invalid check_depth
  handle_submissions is_post body s =
      if not is_post
      then (
        record { status = 405; retry_after = none; body = plain (codes "Method Not Allowed") },
        [],
        s,
      )
      else elim body [
        | err e ↦ (write_json_error 400 (codes "Invalid JSON payload: " ++ e), [], s)
        | ok req ↦ check_depth (invalid table req) req s
      ]
