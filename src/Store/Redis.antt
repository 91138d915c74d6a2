-- ===== src/Store/Redis.antt =====
-- pkg/store/redis_store.go: the store over Redis values. The Redis client and the JSON codec are
-- arguments.
pub mod Refinement
use remote_runtime_engine.Base.{
  ℕ, Bool, true, false, Option, none, some, List, ◌++◌, Text, codes, ℤ, pos, leb_ℤ, Result, ok, err,
  if◌then◌else◌,
}
use remote_runtime_engine.Store.{SubmissionState}

-- The reply of `GET`: a value, `redis.Nil`, or an error.
pub data Reply : Type 0 where
  value : Text → Reply
  nil_reply : Reply
  failed : Text → Reply

-- The commands that the store sends, over the state `S` of the server and the connection. A value is
-- set with its time to live in nanoseconds.
pub record RedisValues (S : Type 0) : Type 0 where
  pub set : Text → Text → ℤ → S → Option Text × S
  pub fetch : Text → S → Reply × S
  pub close : S → S

-- `json.Marshal` and `json.Unmarshal` for a state.
pub record StateCodec (F : Type 0) : Type 0 where
  pub marshal : SubmissionState F → Result Text Text
  pub unmarshal : Text → Result Text (SubmissionState F)

pub data RedisStoreError : Type 0 where
  nil_state not_found : RedisStoreError
  marshal_failed get_failed unmarshal_failed client_failed : Text → RedisStoreError

abbrev pub redis_state_prefix : Text
redis_state_prefix = codes "speedcode:state:"

-- The time to live of `NewRedisStore`; 24 hours where none is given.
unfoldable pub state_ttl : ℤ → ℤ
state_ttl ttl = if leb_ℤ ttl (pos 0) then pos 86400000000000 else ttl

unfoldable pub state_key : Text → Text
state_key id = redis_state_prefix ++ id

module _ {S F : Type 0} (client : RedisValues S) (codec : StateCodec F) (ttl : ℤ) where
  unfoldable pub written : Option Text × S → Option RedisStoreError × S
  written (none, s) = (none, s)
  written (some e, s) = (some (client_failed e), s)

  unfoldable pub set_encoded : Text → Result Text Text → S → Option RedisStoreError × S
  unfolding written
  set_encoded id (err e) s = (some (marshal_failed e), s)
  set_encoded id (ok t) s = written (client.set (state_key id) t ttl s)

  -- `SaveState` at the time `now`.
  unfoldable pub save_state : ℕ → Option (SubmissionState F) → S → Option RedisStoreError × S
  unfolding set_encoded
  save_state now none s = (some nil_state, s)
  save_state now (some st) s =
      set_encoded st.submission_id (codec.marshal (record st { updated_at = now })) s

  unfoldable pub decoded :
      Result Text (SubmissionState F) → Result RedisStoreError (SubmissionState F)
  decoded (ok st) = ok st
  decoded (err e) = err (unmarshal_failed e)

  -- What `GetState` makes of a reply.
  unfoldable pub after_get : Reply → Result RedisStoreError (SubmissionState F)
  unfolding decoded
  after_get nil_reply = err not_found
  after_get (failed e) = err (get_failed e)
  after_get (value t) = decoded (codec.unmarshal t)

  -- `GetState`.
  unfoldable pub get_state : Text → S → Result RedisStoreError (SubmissionState F) × S
  unfolding after_get
  get_state id s = let (r, s') = client.fetch (state_key id) s in (after_get r, s')

  -- `Close`.
  unfoldable pub close : S → S
  close s = client.close s
