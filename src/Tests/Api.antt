-- ===== src/Tests/Api.antt =====
-- A submission at concrete inputs.
use remote_runtime_engine.Base.{
  ℕ, suc, ◌≡◌, refl, true, none, [], codes, pos, ok, text_eq, to_lower, trim_space, is_space,
  lower_rune,
}
use remote_runtime_engine.Models.Request.{normalize_language, alias}
use remote_runtime_engine.Languages.{get, find, name, registry, register}
use remote_runtime_engine.Api.{
  ServerConfig, SubmitRequest, Services, handle_submissions, invalid, overloaded, check_depth,
  submit_unless, submit, hand_over, announce, accepted_response,
}
use remote_runtime_engine.Api.Submissions.{Served, handle_submissions-Served}
use remote_runtime_engine.Tests.{whole, ascii}

abbrev idle_services : Services ℕ ℕ
idle_services = record {
  queue_depth = λ t. (ok (pos 3), t);
  save_state = λ st t. (none, suc t);
  enqueue = λ j t. (none, suc t);
  publish = λ id e t. suc t;
  new_uuid = λ t. (codes "0f8fad5b-d9cb-469f", suc t);
  now = λ t. (t, suc t);
}

abbrev pub wish : SubmitRequest ℕ
wish = record {
  language = codes "C++";
  code = codes "int main(){}";
  time_limit_ms = pos 0;
  memory_limit_mb = pos 0;
  cpu_quota = 0;
  pids_limit = pos 0;
  max_output_bytes = pos 0;
  sandbox_type = [];
  test_cases = [];
}

abbrev config : ServerConfig
config = record { addr = []; max_queue_depth = pos 500 }

handle_submissions-Served_example :
    Served whole ascii
      (ok wish)
      (handle_submissions whole ascii config idle_services true (ok wish) 1).0
      (handle_submissions whole ascii config idle_services true (ok wish) 1).1
handle_submissions-Served_example =
    handle_submissions-Served whole ascii config idle_services true (ok wish) 1

wish_taken : (handle_submissions whole ascii config idle_services true (ok wish) 1).0.status ≡ 202
unfolding handle_submissions check_depth invalid overloaded submit_unless submit hand_over announce
    accepted_response get find text_eq to_lower name normalize_language alias trim_space is_space
    lower_rune registry register
wish_taken = refl
