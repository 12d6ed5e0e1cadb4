-- ===== src/Prelude/Map.antt =====
-- Go maps as association lists, with the laws of lookup and of counting.
use venuewire.Prelude.Tests.{Eq, if◌then◌else◌, Bool-cases}
use Prim.Native.Nat.{ℕ, ◌+◌}
use mathlib.Core.Path.{◌≡◌, refl, ap}
use mathlib.Core.Logic.{◌≢◌, ◌⊎◌, inl, inr}
use mathlib.Core.Bool.{Bool}
use mathlib.Core.List.{List, [], ◌∷◌}
use mathlib.Core.Option.{Option, none, some}
use native.Mathlib.Omega.{arith}

abbrev pub Map : Type 0 → Type 0 → Type 0
Map K V = List (K × V)

module _ {K V : Type 0} ⦃e : Eq K⦄ where
  unfoldable pub lookup : K → Map K V → Option V
  lookup k [] = none
  lookup k ((j, v) ∷ m) = if e.beq j k then some v else lookup k m

  -- `m[k] = v`.
  unfoldable pub insert : K → V → Map K V → Map K V
  insert k v [] = (k, v) ∷ []
  insert k v ((j, w) ∷ m) = if e.beq j k then (j, v) ∷ m else (j, w) ∷ insert k v m

  -- `delete(m, k)`.
  unfoldable pub erase : K → Map K V → Map K V
  erase k [] = []
  erase k ((j, w) ∷ m) = let rest = erase k m in if e.beq j k then rest else (j, w) ∷ rest

  pub lookup-insert :
      (k j : K) (v : V) (m : Map K V)
      → lookup j (insert k v m) ≡ (if e.beq k j then some v else lookup j m)
  unfolding lookup insert
  lookup-insert k j v [] = refl
  lookup-insert k j v ((i, w) ∷ m) =
      ground (arith, e.beq_iff k j, e.beq_iff i k, e.beq_iff i j, lookup-insert k j v m)

  pub lookup-erase :
      (k j : K) (m : Map K V) → lookup j (erase k m) ≡ (if e.beq k j then none else lookup j m)
  unfolding lookup erase
  lookup-erase k j [] = ground arith
  lookup-erase k j ((i, w) ∷ m) =
      ground (arith, e.beq_iff k j, e.beq_iff i k, e.beq_iff i j, lookup-erase k j m)

module _ {K V : Type 0} ⦃e : Eq K⦄ where
  pub lookup-insert_self : (k : K) (v : V) (m : Map K V) → lookup k (insert k v m) ≡ some v
  lookup-insert_self k v m = ground (arith, lookup-insert k k v m, e.beq_iff k k)

  pub lookup-insert_ne :
      (k j : K) (v : V) (m : Map K V) → k ≢ j → lookup j (insert k v m) ≡ lookup j m
  lookup-insert_ne k j v m h = ground (arith, lookup-insert k j v m, e.beq_iff k j)

  pub lookup-erase_self : (k : K) (m : Map K V) → lookup k (erase k m) ≡ none
  lookup-erase_self k m = ground (arith, lookup-erase k k m, e.beq_iff k k)

  pub lookup-erase_ne : (k j : K) (m : Map K V) → k ≢ j → lookup j (erase k m) ≡ lookup j m
  lookup-erase_ne k j m h = ground (arith, lookup-erase k j m, e.beq_iff k j)

  pub lookup-insert_cases :
      (k j : K) (v : V) (m : Map K V) {w : V}
      → lookup j (insert k v m) ≡ some w
      → ((k ≡ j) × (v ≡ w)) ⊎ ((k ≢ j) × (lookup j m ≡ some w))
  lookup-insert_cases k j v m h = elim (Bool-cases (e.beq k j)) [
    | inl eq ↦ inl ((e.beq_iff k j).0 eq, ground (arith, lookup-insert k j v m))
    | inr ne ↦ inr (λ eq. ground (arith, e.beq_iff k j), ground (arith, lookup-insert k j v m))
  ]

  -- A new key hides no entry.
  pub lookup-insert_new :
      (k j : K) (v w : V) (m : Map K V)
      → lookup k m ≡ none
      → lookup j m ≡ some w
      → lookup j (insert k v m) ≡ some w
  lookup-insert_new k j v w m fresh h = elim (Bool-cases (e.beq k j)) [
    | inl eq ↦ let same : k ≡ j = (e.beq_iff k j).0 eq in cc (ap (λ i. lookup i m) same)
    | inr ne ↦ ground (arith, lookup-insert k j v m)
  ]

abbrev pub to_count : Bool → ℕ
to_count b = if b then 1 else 0

-- How many values pass the test.
unfoldable pub tally : {K V : Type 0} → (V → Bool) → Map K V → ℕ
tally p [] = 0
tally p ((_, v) ∷ m) = to_count (p v) + tally p m

module _ {K V : Type 0} ⦃e : Eq K⦄ (p : V → Bool) where
  pub tally-insert_new :
      (k : K) (v : V) (m : Map K V)
      → lookup k m ≡ none
      → tally p (insert k v m) ≡ tally p m + to_count (p v)
  unfolding lookup insert tally
  tally-insert_new k v [] h = omega arith
  tally-insert_new k v ((j, w) ∷ m) h = ground (arith, tally-insert_new k v m)

  pub tally-insert :
      (k : K) (v old : V) (m : Map K V)
      → lookup k m ≡ some old
      → tally p (insert k v m) + to_count (p old) ≡ tally p m + to_count (p v)
  unfolding lookup insert tally
  tally-insert k v old [] h = cc
  tally-insert k v old ((j, w) ∷ m) h = ground (arith, tally-insert k v old m)
