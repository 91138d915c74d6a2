-- ===== src/Tests/Live.antt =====
-- The stream of a job and the store after it: the theorems at concrete inputs.
use remote_runtime_engine.Base.{
  ℕ, ◌≡◌, ◌∙◌, refl, sym, ap, some_injective, true, some, List, [], ◌∷◌, map, codes, ok, text_eq,
  if◌then◌else◌,
}
use remote_runtime_engine.Events.{is_final, ExecutionEvent, queued}
use remote_runtime_engine.Store.{SubmissionState, plain_state, new_memory_store, get_state}
use remote_runtime_engine.Models.{accepted}
use remote_runtime_engine.Worker.Process.{process_job}
use remote_runtime_engine.Worker.Outcome.{Settled}
use remote_runtime_engine.Worker.Stored.{stored, process_job-stored}
use remote_runtime_engine.Worker.Stream.{published, EndsOnce, process_job-EndsOnce}
use remote_runtime_engine.Api.WebSocket.{
  ws_submission_id, snapshot, Frame, text, Wake, tick, event, handled, subscribes, unsubscribes,
  handle_web_socket,
}
use remote_runtime_engine.Api.Live.{
  stream_url, Carries, Closes, found, ws_submission_id-stream_url, handle_web_socket-process_job,
  handle_web_socket-stored,
}
use remote_runtime_engine.Base.{is_space, trim_space, ◌++◌}
use remote_runtime_engine.Api.WebSocket.{bad_route}
use remote_runtime_engine.Api.Detail.{
  handle_submission_detail_or_ws, shows, reading, submissions_prefix, has_suffix,
  handle_submission_detail_or_ws-stored,
}
use remote_runtime_engine.Tests.{whole, sample_job}
use remote_runtime_engine.Tests.Worker.{calm, wild, start}

process_job-stored_example :
    (s : SubmissionState ℕ) × Settled whole sample_job s
    × (get_state
          (codes "s1")
          (stored (process_job whole calm (some sample_job) start).1.log new_memory_store)
        ≡ (if text_eq sample_job.submission_id (codes "s1")
            then ok s
            else get_state (codes "s1") new_memory_store))
process_job-stored_example =
    process_job-stored whole calm sample_job 1 new_memory_store (codes "s1")

process_job-EndsOnce_example :
    EndsOnce (published (process_job whole wild (some sample_job) start).1.log)
process_job-EndsOnce_example = process_job-EndsOnce whole wild sample_job 1

ws_submission_id-stream_url_example :
    ws_submission_id (stream_url (codes "sub_7")) ≡ some (codes "sub_7")
unfolding text_eq
ws_submission_id-stream_url_example =
    ws_submission_id-stream_url (codes "sub_7") (refl, (refl, (refl, (refl, (refl, tt)))))

abbrev delivered : ExecutionEvent ℕ → Wake ℕ
delivered e = event e true true

Carries-all : (es : List (ExecutionEvent ℕ)) → Carries es (map delivered es)
Carries-all [] = tt
Carries-all (e ∷ es) = (refl, Carries-all es)

beat : (es : List (ExecutionEvent ℕ)) → Carries es (tick true ∷ map delivered es)
beat [] = tt
beat (e ∷ es) = Carries-all (e ∷ es)

-- A beat, then the events of the job.
abbrev wakes : List (Wake ℕ)
wakes = tick true ∷ map delivered (published (process_job whole wild (some sample_job) start).1.log)

-- The state that is saved before the job is enqueued.
abbrev waiting : SubmissionState ℕ
waiting = plain_state whole sample_job.submission_id queued accepted (codes "cpp")

handle_web_socket-process_job_example :
    (fs : List (Frame ℕ)) × (handle_web_socket whole
        (stream_url sample_job.submission_id)
        true
        9
        (λ id. some waiting)
        true
        wakes
      ≡ handled fs (subscribes ∷ unsubscribes ∷ []) true)
    × Closes (published (process_job whole wild (some sample_job) start).1.log) (fs, true)
unfolding is_final
handle_web_socket-process_job_example =
    handle_web_socket-process_job whole wild sample_job 1 9 (λ id. some waiting) wakes
      (refl, (refl, (refl, (refl, (refl, tt)))))
      (λ st h. ap (λ s. is_final s.status) (sym (some_injective h)) ∙ refl)
      (beat (published (process_job whole wild (some sample_job) start).1.log))

handle_web_socket-stored_example :
    (s : SubmissionState ℕ) × Settled whole sample_job s
    × (handle_web_socket whole
          (stream_url sample_job.submission_id)
          true
          9
          (λ id. found (
            get_state id
              (stored (process_job whole calm (some sample_job) start).1.log new_memory_store)))
          true
          []
        ≡ handled (text (snapshot whole 9 s) ∷ []) [] true)
    × (is_final (snapshot whole 9 s).status ≡ true)
handle_web_socket-stored_example =
    handle_web_socket-stored whole calm sample_job 1 9 new_memory_store true []
      (refl, (refl, (refl, (refl, (refl, tt)))))

handle_submission_detail_or_ws-stored_example :
    (s : SubmissionState ℕ) × Settled whole sample_job s
    × (handle_submission_detail_or_ws
          (codes "GET")
          (submissions_prefix ++ sample_job.submission_id)
          (reading (stored (process_job whole calm (some sample_job) start).1.log new_memory_store))
          bad_route
        ≡ shows s)
unfolding trim_space has_suffix is_space
handle_submission_detail_or_ws-stored_example =
    handle_submission_detail_or_ws-stored whole calm sample_job 1 new_memory_store bad_route refl
      refl refl
