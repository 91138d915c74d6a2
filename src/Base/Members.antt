-- ===== src/Base/Members.antt =====
-- Elements of lists: some element, every element, and how often a name occurs.
use Prim.Native.Nat.{ℕ, ◌+◌}
use mathlib.Core.Path.{◌≡◌, sym, subst}
use mathlib.Core.Logic.{◌⊎◌, inl, inr}
use mathlib.Core.Bool.{false}
use mathlib.Core.List.{List, [], ◌∷◌, ◌++◌, reverse, reverse-cons}
use native.Mathlib.Omega.{arith}
use remote_runtime_engine.Base.Tests.{if◌then◌else◌, Bool-cases}
use remote_runtime_engine.Base.Lists.{All, All-append}
use remote_runtime_engine.Base.Strings.{Text, text_eq}

module _ {ℓ} {A : Type ℓ} where
  -- Some element has the property.
  abbrev pub Any : (A → Type 0) → List A → Type 0
  Any P [] = ⊥
  Any P (x ∷ xs) = P x ⊎ Any P xs

  pub Any-right : (P : A → Type 0) (xs ys : List A) → Any P ys → Any P (xs ++ ys)
  Any-right P [] ys h = h
  Any-right P (x ∷ xs) ys h = inr (Any-right P xs ys h)

  pub Any-left : (P : A → Type 0) (xs ys : List A) → Any P xs → Any P (xs ++ ys)
  Any-left P [] ys h = absurd h
  Any-left P (x ∷ xs) ys (inl h) = inl h
  Any-left P (x ∷ xs) ys (inr h) = inr (Any-left P xs ys h)

  -- An element of a list is the one in the middle or one of the others.
  pub Any-middle :
      (P : A → Type 0) (xs ys : List A) (x : A) → Any P (xs ++ x ∷ ys) → P x ⊎ Any P (xs ++ ys)
  Any-middle P [] ys x h = h
  Any-middle P (y ∷ xs) ys x (inl h) = inr (inl h)
  Any-middle P (y ∷ xs) ys x (inr h) = elim (Any-middle P xs ys x h) [
    | inl k ↦ inl k
    | inr k ↦ inr (inr k)
  ]

  pub Any-insert :
      (P : A → Type 0) (xs ys : List A) (x : A) → P x ⊎ Any P (xs ++ ys) → Any P (xs ++ x ∷ ys)
  Any-insert P xs ys x (inl h) = Any-right P xs (x ∷ ys) (inl h)
  Any-insert P [] ys x (inr h) = inr h
  Any-insert P (y ∷ xs) ys x (inr (inl h)) = inl h
  Any-insert P (y ∷ xs) ys x (inr (inr h)) = inr (Any-insert P xs ys x (inr h))

  pub All-middle :
      (P : A → Type 0) (xs ys : List A) (x : A) → All P (xs ++ x ∷ ys) → P x × All P (xs ++ ys)
  All-middle P [] ys x h = h
  All-middle P (y ∷ xs) ys x h = let (p, k) = All-middle P xs ys x h.1 in (p, (h.0, k))

  pub All-insert :
      (P : A → Type 0) (xs ys : List A) (x : A) → P x → All P (xs ++ ys) → All P (xs ++ x ∷ ys)
  All-insert P [] ys x p h = (p, h)
  All-insert P (y ∷ xs) ys x p h = (h.0, All-insert P xs ys x p h.1)

  pub All-map : (P Q : A → Type 0) → ((x : A) → P x → Q x) → (xs : List A) → All P xs → All Q xs
  All-map P Q f [] h = tt
  All-map P Q f (x ∷ xs) h = (f x h.0, All-map P Q f xs h.1)

  pub All-zip : (P Q : A → Type 0) (xs : List A) → All P xs → All Q xs → All (λ x. P x × Q x) xs
  All-zip P Q [] h k = tt
  All-zip P Q (x ∷ xs) h k = ((h.0, k.0), All-zip P Q xs h.1 k.1)

  pub All-reverse : (P : A → Type 0) (xs : List A) → All P xs → All P (reverse xs)
  All-reverse P [] h = tt
  All-reverse P (x ∷ xs) h =
      subst (All P) (sym (reverse-cons x xs))
        (All-append P (reverse xs) (x ∷ []) (All-reverse P xs h.1) (h.0, tt))

module _ {ℓ} {A : Type ℓ} (name : A → Text) (id : Text) where
  -- How many elements have the name.
  unfoldable pub tally : List A → ℕ
  tally [] = 0
  tally (x ∷ xs) = (if text_eq (name x) id then 1 else 0) + tally xs

  pub tally-append : (xs ys : List A) → tally (xs ++ ys) ≡ tally xs + tally ys
  unfolding tally
  tally-append [] ys = omega arith
  tally-append (x ∷ xs) ys = omega (arith, tally-append xs ys)

  -- The one in the middle counts once more.
  pub tally-middle :
      (xs ys : List A) (x : A)
      → tally (xs ++ x ∷ ys) ≡ (if text_eq (name x) id then 1 else 0) + tally (xs ++ ys)
  unfolding tally
  tally-middle xs ys x = omega (arith, tally-append xs (x ∷ ys), tally-append xs ys)

  pub tally-none : (xs : List A) → tally xs ≡ 0 → All (λ x. text_eq (name x) id ≡ false) xs
  unfolding tally
  tally-none [] h = tt
  tally-none (x ∷ xs) h = elim (Bool-cases (text_eq (name x) id)) [
    | inl e ↦ absurd (ground (arith, e, h))
    | inr e ↦ (e, tally-none xs (ground (arith, e, h)))
  ]
