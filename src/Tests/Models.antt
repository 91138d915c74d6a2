-- ===== src/Tests/Models.antt =====
-- Requests and language names: the theorems at concrete inputs.
use remote_runtime_engine.Base.{
  ◌≡◌, refl, codes, pos, ok, lower_rune, to_lower, trim_space, is_space, text_eq,
}
use remote_runtime_engine.Models.Request.{
  normalize, generate_execution_id, hex, normalize_language, alias,
}
use remote_runtime_engine.Models.Bounds.{IsBounded, normalize-IsBounded}
use remote_runtime_engine.Languages.{get, find, name, python}
use remote_runtime_engine.Tests.{whole, ascii, entropy, wild_request}

normalize-IsBounded_example : IsBounded (normalize whole ascii entropy wild_request)
normalize-IsBounded_example = normalize-IsBounded whole ascii entropy wild_request

-- The limits that the request gets.
wild_limits :
    ((normalize whole ascii entropy wild_request).time_limit_ms ≡ pos 10000)
    × ((normalize whole ascii entropy wild_request).memory_limit_mb ≡ pos 128)
    × ((normalize whole ascii entropy wild_request).id ≡ codes "exec-01ff")
unfolding normalize generate_execution_id hex
wild_limits = (refl, refl, refl)

python_resolves : get ascii (codes " PY") ≡ ok python
unfolding get find to_lower lower_rune trim_space is_space text_eq normalize_language alias name
python_resolves = refl
