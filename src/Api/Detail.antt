-- ===== src/Api/Detail.antt =====
-- pkg/api/server.go: the handler of one submission, the health of the server, and the headers of every
-- response. The store's answer, the depth of the queue and the time are arguments.
use remote_runtime_engine.Base.{
  ℕ, ◌≡◌, refl, ap, ◌∙◌, Bool, true, false, not, none, some, List, [], ◌∷◌, ◌++◌, reverse, Text,
  codes, text_eq, text_eq_refl, arith, trim_space, ℤ, Float, Result, ok, err, ◌==◌, if◌then◌else◌,
  ◌&&◌,
}
use remote_runtime_engine.Models.Request.{is_empty}
use remote_runtime_engine.Queue.{SubmissionJob}
use remote_runtime_engine.Store.{SubmissionState, MemoryStore, StoreError, get_state}
use remote_runtime_engine.Worker.{Env}
use remote_runtime_engine.Worker.Process.{process_job}
use remote_runtime_engine.Worker.Outcome.{Settled}
use remote_runtime_engine.Worker.Stored.{stored, process_job-stored}
use remote_runtime_engine.Api.{Response, write_json_error, plain}
use remote_runtime_engine.Api.WebSocket.{Handled}

-- `strings.HasPrefix` and `strings.HasSuffix`.
unfoldable pub has_prefix : Text → Text → Bool
has_prefix s [] = true
has_prefix [] (d ∷ t) = false
has_prefix (c ∷ s) (d ∷ t) = c == d && has_prefix s t

unfoldable pub has_suffix : Text → Text → Bool
unfolding has_prefix
has_suffix s t = has_prefix (reverse s) (reverse t)

-- What stands after a prefix of the length of the second text.
abbrev drop_all : Text → Text → Text
drop_all s [] = s
drop_all [] (d ∷ t) = []
drop_all (c ∷ s) (d ∷ t) = drop_all s t

-- `strings.TrimPrefix`.
unfoldable pub trim_prefix : Text → Text → Text
unfolding has_prefix
trim_prefix s t = if has_prefix s t then drop_all s t else s

-- What `GetState` of a store answers instead of a state.
pub data ReadError : Type 0 where
  not_found : ReadError
  read_failed : Text → ReadError

-- A response with an error, a state as JSON, or the stream of the submission.
pub data Detail (F : Type 0) : Type 0 where
  refused : Response → Detail F
  shows : SubmissionState F → Detail F
  streams : Handled F → Detail F

-- What follows the read of the state.
unfoldable pub after_get_state : {F : Type 0} → Result ReadError (SubmissionState F) → Detail F
after_get_state (ok st) = shows st
after_get_state (err not_found) = refused (write_json_error 404 (codes "submission not found"))
after_get_state (err (read_failed e)) =
    refused (write_json_error 500 (codes "failed to get submission: " ++ e))

abbrev pub submissions_prefix : Text
submissions_prefix = codes "/api/v1/submissions/"

abbrev method_not_allowed : Response
method_not_allowed = record {
  status = 405;
  retry_after = none;
  body = plain (codes "Method Not Allowed");
}

-- What follows the extraction of the identifier.
unfoldable pub after_id :
    {F : Type 0} → (Text → Result ReadError (SubmissionState F)) → Text → Detail F
unfolding after_get_state
after_id read id =
    if is_empty id
    then refused (write_json_error 400 (codes "missing submission id"))
    else after_get_state (read id)

-- What follows the test for the suffix of a stream.
unfoldable pub detail_of :
    {F : Type 0} → Text → Text → (Text → Result ReadError (SubmissionState F)) → Detail F
unfolding trim_prefix after_id
detail_of method path read =
    if not (text_eq method (codes "GET"))
    then refused (method_not_allowed)
    else after_id read (trim_space (trim_prefix path submissions_prefix))

-- `handleSubmissionDetailOrWS`.
unfoldable pub handle_submission_detail_or_ws :
    {F : Type 0}
    → Text
    → Text
    → (Text → Result ReadError (SubmissionState F))
    → Handled F
    → Detail F
unfolding has_suffix detail_of
handle_submission_detail_or_ws method path read stream =
    if has_suffix path (codes "/ws") then streams stream else detail_of method path read

-- What `handleHealth` answers; an error of the queue counts as its depth with it.
pub record Health : Type 0 where
  pub status : Text
  pub queue_depth : ℤ
  pub timestamp : ℕ

unfoldable pub handle_health : ℤ → ℕ → Health
handle_health depth now = record { status = codes "healthy"; queue_depth = depth; timestamp = now }

-- What leaves `corsMiddleware`: the answer to a preflight request, or the next handler's.
pub data Corsed (A : Type 0) : Type 0 where
  no_content : Corsed A
  passed : A → Corsed A

abbrev pub cors_headers : List (Text × Text)
cors_headers =
    (codes "Access-Control-Allow-Origin", codes "*")
    ∷ (codes "Access-Control-Allow-Methods", codes "GET, POST, OPTIONS")
    ∷ (codes "Access-Control-Allow-Headers", codes "Content-Type, Authorization")
    ∷ []

unfoldable pub cors_middleware : {A : Type 0} → Text → A → List (Text × Text) × Corsed A
cors_middleware method next =
    (cors_headers, if text_eq method (codes "OPTIONS") then no_content else passed next)

has_prefix-append : (t s : Text) → has_prefix (t ++ s) t ≡ true
unfolding has_prefix
has_prefix-append [] [] = refl
has_prefix-append [] (c ∷ s) = refl
has_prefix-append (c ∷ t) s = ground (arith, has_prefix-append t s)

drop_all-append : (t s : Text) → drop_all (t ++ s) t ≡ s
drop_all-append [] [] = refl
drop_all-append [] (c ∷ s) = refl
drop_all-append (c ∷ t) s = drop_all-append t s

trim_prefix-append : (t s : Text) → trim_prefix (t ++ s) t ≡ s
unfolding trim_prefix
trim_prefix-append t s = rw (has_prefix-append t s) (drop_all-append t s)

detail_of-get :
    {F : Type 0} (id : Text) (read : Text → Result ReadError (SubmissionState F))
    → trim_space id ≡ id
    → is_empty id ≡ false
    → detail_of (codes "GET") (submissions_prefix ++ id) read ≡ after_get_state (read id)
unfolding detail_of after_id text_eq
detail_of-get id read h k =
    ap (λ t. after_id read (trim_space t)) (trim_prefix-append submissions_prefix id)
    ∙ ap (after_id read) h
    ∙ simp (k) refl

-- The in-memory store as the handler reads it.
abbrev pub read_as :
    {F : Type 0} → Result StoreError (SubmissionState F) → Result ReadError (SubmissionState F)
read_as (ok st) = ok st
read_as (err e) = err not_found

abbrev pub reading : {F : Type 0} → MemoryStore F → Text → Result ReadError (SubmissionState F)
reading m id = read_as (get_state id m)

module _ {S F : Type 0} (fl : Float F) (env : Env S F) (j : SubmissionJob F) where
  -- Once a job has ended, by a panic too, and its effects are in the store, a GET of its submission
  -- shows the settled state: failed, or completed with an account of all its cases. This is for an
  -- identifier that is not empty, has no space at its ends, and whose path is not that of a stream.
  pub handle_submission_detail_or_ws-stored :
      (os : S) (m : MemoryStore F) (stream : Handled F)
      → trim_space j.submission_id ≡ j.submission_id
      → is_empty j.submission_id ≡ false
      → has_suffix (submissions_prefix ++ j.submission_id) (codes "/ws") ≡ false
      → (s : SubmissionState F) × Settled fl j s
        × (handle_submission_detail_or_ws
              (codes "GET")
              (submissions_prefix ++ j.submission_id)
              (reading
                (stored (process_job fl env (some j) (record { os = os; log = [] })).1.log m))
              stream
            ≡ shows s)
  unfolding handle_submission_detail_or_ws after_get_state
  handle_submission_detail_or_ws-stored os m stream h k l =
      let (s, v, e) = process_job-stored fl env j os m j.submission_id in
      let after = stored (process_job fl env (some j) (record { os = os; log = [] })).1.log m in
      (
        s,
        v,
        rw l (
            detail_of-get j.submission_id (reading after) h k
            ∙ ap (λ r. after_get_state (read_as r))
                (e
                  ∙ ap (λ b. if b then ok s else get_state j.submission_id m)
                      (text_eq_refl j.submission_id))),
      )
