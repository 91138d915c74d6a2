-- ===== src/Store/Contract.antt =====
-- The interface `StateStore` of pkg/store/store.go, and the map from submissions to states that it
-- stands for.
use remote_runtime_engine.Base.{
  ℕ, ◌≡◌, sym, ap, ◌∙◌, Bool, true, Option, none, some, Option-cases, Result, ok, err, Text,
  text_eq, lookup, lookup-insert, inl, inr, arith, if◌then◌else◌,
}
use remote_runtime_engine.Store
use remote_runtime_engine.Store.{
  SubmissionState, StoreError, not_found, MemoryStore, get_state, save_state,
}

-- `E` is the errors, of which some say that the state was not found; `Q` is the store with all that it
-- works on.
pub record StateStore (Q E F : Type 0) : Type 0 where
  pub save_state : ℕ → SubmissionState F → Q → Option E × Q
  pub get_state : Text → Q → Result E (SubmissionState F) × Q
  pub is_not_found : E → Bool

-- A map, changed at one submission.
abbrev pub update :
    {F : Type 0}
    → (Text → Option (SubmissionState F))
    → Text
    → SubmissionState F
    → Text
    → Option (SubmissionState F)
update f id s j = if text_eq id j then some s else f j

-- The store simulates a map: `R q f` says that `q` holds the states `f`.
pub record IsMap {Q E F : Type 0} (i : StateStore Q E F)
    (R : Q → (Text → Option (SubmissionState F)) → Type 0) : Type 0 where
  pub saves :
      (now : ℕ) (s : SubmissionState F) (q q' : Q) (f : Text → Option (SubmissionState F))
      → i.save_state now s q ≡ (none, q')
      → R q f
      → R q' (update f s.submission_id (record s { updated_at = now }))
  pub keeps :
      (now : ℕ) (s : SubmissionState F) (q q' : Q) (e : E) (f : Text → Option (SubmissionState F))
      → i.save_state now s q ≡ (some e, q')
      → R q f
      → R q' f
  pub finds :
      (id : Text) (s : SubmissionState F) (q q' : Q) (f : Text → Option (SubmissionState F))
      → i.get_state id q ≡ (ok s, q')
      → R q f
      → (f id ≡ some s) × R q' f
  pub misses :
      (id : Text) (q q' : Q) (e : E) (f : Text → Option (SubmissionState F))
      → i.get_state id q ≡ (err e, q')
      → i.is_not_found e ≡ true
      → R q f
      → (f id ≡ none) × R q' f
  pub fails :
      (id : Text) (q q' : Q) (e : E) (f : Text → Option (SubmissionState F))
      → i.get_state id q ≡ (err e, q')
      → R q f
      → R q' f

module _ {F : Type 0} where
  -- The store in memory.
  abbrev pub memory_store : StateStore (MemoryStore F) StoreError F
  memory_store = record {
    save_state = λ now s m. (none, Store.save_state now (some s) m);
    get_state = λ id m. (Store.get_state id m, m);
    is_not_found = λ e. true;
  }

  abbrev pub Stores : MemoryStore F → (Text → Option (SubmissionState F)) → Type 0
  Stores m f = (id : Text) → lookup id m.states ≡ f id

  memory-saves :
      (now : ℕ) (s : SubmissionState F) (m m' : MemoryStore F)
      (f : Text → Option (SubmissionState F))
      → memory_store.save_state now s m ≡ (none, m')
      → Stores m f
      → Stores m' (update f s.submission_id (record s { updated_at = now }))
  unfolding Store.save_state
  memory-saves now s m m' f h v id =
      let e : Store.save_state now (some s) m ≡ m' = ap (λ p. p.1) h in
      ap (λ q. lookup id q.states) (sym e)
      ∙ ground
          (arith, lookup-insert s.submission_id id (record s { updated_at = now }) m.states, v id)

  memory-finds :
      (id : Text) (s : SubmissionState F) (m m' : MemoryStore F)
      (f : Text → Option (SubmissionState F))
      → memory_store.get_state id m ≡ (ok s, m')
      → Stores m f
      → (f id ≡ some s) × Stores m' f
  unfolding Store.get_state
  memory-finds id s m m' f h v =
      let same : m ≡ m' = ap (λ p. p.1) h in
      let got : Store.get_state id m ≡ ok s = ap (λ p. p.0) h in
      (
        sym (v id) ∙ (elim (Option-cases (lookup id m.states)) [
          | inl k ↦ absurd (ground (arith, k, got))
          | inr (x, k) ↦ ground (arith, k, got)
        ]),
        λ j. ap (λ q. lookup j q.states) (sym same) ∙ v j,
      )

  memory-misses :
      (id : Text) (m m' : MemoryStore F) (e : StoreError) (f : Text → Option (SubmissionState F))
      → memory_store.get_state id m ≡ (err e, m')
      → Stores m f
      → (f id ≡ none) × Stores m' f
  unfolding Store.get_state
  memory-misses id m m' e f h v =
      let same : m ≡ m' = ap (λ p. p.1) h in
      let got : Store.get_state id m ≡ err e = ap (λ p. p.0) h in
      (
        sym (v id) ∙ (elim (Option-cases (lookup id m.states)) [
          | inl k ↦ k
          | inr (x, k) ↦ absurd (ground (arith, k, got))
        ]),
        λ j. ap (λ q. lookup j q.states) (sym same) ∙ v j,
      )

  -- The store in memory is a map: what is saved reads back, stamped, and nothing else changes.
  pub memory_store-IsMap : IsMap memory_store Stores
  memory_store-IsMap = record {
    saves = memory-saves;
    keeps = λ now s m m' e f h v. absurd (cc);
    finds = memory-finds;
    misses = λ id m m' e f h _ v. memory-misses id m m' e f h v;
    fails = λ id m m' e f h v. (memory-misses id m m' e f h v).1;
  }
