-- ===== src/Tests/Stores.antt =====
-- The store over Redis, with a server that is one map.
use remote_runtime_engine.Base.{
  sym, ap, ◌∙◌, Option, none, some, List, Text, pos, lookup, insert, lookup-insert, arith,
}
use remote_runtime_engine.Store.Redis.{RedisValues, value, nil_reply}
use remote_runtime_engine.Store.Redis.Refinement.{ValueLaws, IsMap, redis_store-IsMap}
use remote_runtime_engine.Tests.StateCodec.{state_codec}

-- A server with values that live for ever.
abbrev value_map : RedisValues (List (Text × Text))
value_map = record {
  set = λ k t ttl s. (none, insert k t s);
  fetch = λ k s. (elim (lookup k s) [ none ↦ nil_reply | some t ↦ value t ], s);
  close = λ s. s;
}

abbrev held : List (Text × Text) → Text → Option Text
held s k = lookup k s

value_map_laws : ValueLaws value_map held
value_map_laws = record {
  sets = λ k t ttl s s' h j.
      ap (λ (m : List (Text × Text)). lookup j m) (sym (ap (λ p. p.1) h)) ∙ lookup-insert k j t s;
  finds = λ k t s s' h.
      (ground (arith, h), λ j. ap (λ (m : List (Text × Text)). lookup j m) (sym (ap (λ p. p.1) h)));
  misses = λ k s s' h.
      (ground (arith, h), λ j. ap (λ (m : List (Text × Text)). lookup j m) (sym (ap (λ p. p.1) h)));
}

redis_store-IsMap_example : IsMap value_map state_codec (pos 0) held
redis_store-IsMap_example = redis_store-IsMap value_map state_codec (pos 0) held value_map_laws
