-- ===== src/Store/Lookup.antt =====
-- What a read of the store of pkg/store/memory_store.go finds.
use remote_runtime_engine.Base.{
  ℕ, ◌≡◌, some, Text, text_eq, ok, lookup-insert, arith, if◌then◌else◌,
}
use remote_runtime_engine.Store.{SubmissionState, MemoryStore, save_state, get_state}

module _ {F : Type 0} where
  -- After a save the submission reads as it was saved, with the time of the save, and every other
  -- submission reads as before.
  pub get_state-save_state :
      (now : ℕ) (s : SubmissionState F) (m : MemoryStore F) (id : Text)
      → get_state id (save_state now (some s) m) ≡ (
          if text_eq s.submission_id id then ok (record s { updated_at = now }) else get_state id m)
  unfolding get_state save_state
  get_state-save_state now s m id =
      ground (arith, lookup-insert s.submission_id id (record s { updated_at = now }) m.states)
