-- ===== src/Deribit/Book/Levels.antt =====
-- What `applyLevels` does to a side of the book.
use venuewire.Prelude.{
  ◌≡◌, refl, ap, sym, ◌∙◌, inl, inr, ◌⊎◌, true, false, Option, none, some, List, [], ◌∷◌, arith,
  if◌then◌else◌, Bool-cases, Option-cases, Text,
}
use venuewire.Prelude.Map.{Map, lookup, lookup-insert, lookup-erase}
use venuewire.Deribit.Book.{
  Floats, BookError, Json, Change, Read, change, bad, float_of, read_action, read_amount,
  read_price, read_level, change_side, apply_levels,
}

module _ (num : Floats) where
  open num use {Float, float_eq, zero_float, lt, lt_total}

  -- A change that can be stored: the price is positive, and so is the amount, if there is one.
  pub record IsProper (c : Change num) : Type 0 where
    pub price : lt zero_float c.price ≡ true
    pub amount : (a : Float) → c.amount ≡ some a → lt zero_float a ≡ true

  positive_of :
      (a : Float)
      → lt a zero_float ≡ false
      → float_eq.beq a zero_float ≡ false
      → lt zero_float a ≡ true
  positive_of a h ne = elim (lt_total a zero_float) [
    | inl eq ↦ absurd (cc ((float_eq.beq_iff a zero_float).1 eq))
    | inr (inl less) ↦ absurd (cc less)
    | inr (inr greater) ↦ greater
  ]

  read_action-IsProper :
      (action : Text) (price amount : Float) {c : Change num}
      → lt zero_float price ≡ true
      → lt amount zero_float ≡ false
      → read_action num action price amount ≡ change c
      → IsProper c
  unfolding read_action
  read_action-IsProper action price amount {c} p a h =
      elim (Bool-cases (float_eq.beq amount zero_float)) [
        | inl zero ↦ ground arith
        | inr nonzero ↦ let positive = positive_of amount a nonzero in ground arith
      ]

  read_amount-IsProper :
      (action : Text) (price : Float) (amount : Option Float) {c : Change num}
      → lt zero_float price ≡ true
      → read_amount num action price amount ≡ change c
      → IsProper c
  unfolding read_amount
  read_amount-IsProper action price none p h = cc
  read_amount-IsProper action price (some amount) p h = elim (Bool-cases (lt amount zero_float)) [
    | inl negative ↦ absurd (ground arith)
    | inr other ↦ read_action-IsProper action price amount p other (rw other at h)
  ]

  read_price-IsProper :
      (action : Text) (price amount : Option Float) {c : Change num}
      → read_price num action price amount ≡ change c
      → IsProper c
  unfolding read_price
  read_price-IsProper action none amount h = cc
  read_price-IsProper action (some price) amount h = elim (Bool-cases (lt zero_float price)) [
    | inl positive ↦ read_amount-IsProper action price amount positive (rw positive at h)
    | inr other ↦ absurd (ground arith)
  ]

  read_level-IsProper :
      (raw : List (Json num)) {c : Change num} → read_level num raw ≡ change c → IsProper c
  unfolding read_level
  read_level-IsProper [] h = cc
  read_level-IsProper (_ ∷ []) h = ground arith
  read_level-IsProper (_ ∷ _ ∷ []) h = ground arith
  read_level-IsProper (Json.text action ∷ price ∷ amount ∷ []) h =
      read_price-IsProper action (float_of num price) (float_of num amount) h
  read_level-IsProper (Json.number _ ∷ _ ∷ _ ∷ []) h = cc
  read_level-IsProper (Json.other ∷ _ ∷ _ ∷ []) h = cc
  read_level-IsProper (Json.text _ ∷ _ ∷ _ ∷ _ ∷ _) h = cc
  read_level-IsProper (Json.number _ ∷ _ ∷ _ ∷ _ ∷ _) h = cc
  read_level-IsProper (Json.other ∷ _ ∷ _ ∷ _ ∷ _) h = cc

  -- Every price and every amount of the side is positive.
  abbrev pub IsPositive : Map Float Float → Type 0
  IsPositive side =
      (p a : Float)
      → lookup ⦃e = float_eq⦄ p side ≡ some a
      → (lt zero_float p ≡ true) × (lt zero_float a ≡ true)

  -- What a change says of the price `p`: nothing, or what is stored there.
  abbrev pub said : Float → Change num → Option (Option Float)
  said p c = if float_eq.beq c.price p then some c.amount else none

  abbrev pub or_before : Option (Option Float) → Option Float → Option Float
  or_before none old = old
  or_before (some new) old = new

  lookup-change_side :
      (p : Float) (c : Change num) (side : Map Float Float)
      → lookup ⦃e = float_eq⦄ p (change_side num c side)
        ≡ or_before (said p c) (lookup ⦃e = float_eq⦄ p side)
  lookup-change_side p c side = elim (Option-cases c.amount) [
    | inl gone ↦ ground (arith, lookup-erase ⦃e = float_eq⦄ c.price p side)
    | inr (a, there) ↦ ground (arith, lookup-insert ⦃e = float_eq⦄ c.price p a side)
  ]

  change_side-IsPositive :
      (c : Change num) (side : Map Float Float)
      → IsProper c
      → IsPositive side
      → IsPositive (change_side num c side)
  change_side-IsPositive c side proper h p a found = elim (Bool-cases (float_eq.beq c.price p)) [
    | inl here ↦
        let eq = (float_eq.beq_iff c.price p).0 here in
        let there : c.amount ≡ some a = ground (arith, lookup-change_side p c side) in
        (rw (← eq) proper.price, proper.amount a there)
    | inr elsewhere ↦ h p a (ground (arith, lookup-change_side p c side))
  ]

  pub Read-cases :
      (r : Read num) → ((e : BookError) × (r ≡ bad e)) ⊎ ((c : Change num) × (r ≡ change c))
  Read-cases (bad e) = inl (e, refl)
  Read-cases (change c) = inr (c, refl)

  levels_stop :
      (side : Map Float Float) (raw : List (Json num)) (levels : List (List (Json num)))
      (e : BookError)
      → read_level num raw ≡ bad e
      → apply_levels num side (raw ∷ levels) ≡ (side, some e)
  unfolding apply_levels
  levels_stop side raw levels e h = rw (h, apply_levels)

  levels_step :
      (side : Map Float Float) (raw : List (Json num)) (levels : List (List (Json num)))
      (c : Change num)
      → read_level num raw ≡ change c
      → apply_levels num side (raw ∷ levels) ≡ apply_levels num (change_side num c side) levels
  unfolding apply_levels
  levels_step side raw levels c h = rw (h, apply_levels)

  -- Whatever levels come, also where one is refused, every price and every amount stays positive.
  pub apply_levels-IsPositive :
      (side : Map Float Float) (levels : List (List (Json num)))
      → IsPositive side
      → IsPositive (apply_levels num side levels).0
  apply_levels-IsPositive side [] h = unfold apply_levels in h
  apply_levels-IsPositive side (raw ∷ levels) h = elim (Read-cases (read_level num raw)) [
    | inl (e, refused) ↦ rw (levels_stop side raw levels e refused) h
    | inr (c, accepted) ↦ rw (levels_step side raw levels c accepted) (
        apply_levels-IsPositive (change_side num c side) levels
          (change_side-IsPositive c side (read_level-IsProper raw accepted) h))
  ]

  -- The last change that the levels before the first refused one make to the price `p`.
  pub last_said : Float → List (List (Json num)) → Option (Option Float)
  last_said p [] = none
  last_said p (raw ∷ levels) =
      let rest = last_said p levels in
      elim (read_level num raw) [
        | bad e ↦ none
        | change c ↦ elim rest [ some x ↦ some x | none ↦ said p c ]
      ]

  last_said_step :
      (p : Float) (raw : List (Json num)) (levels : List (List (Json num))) (c : Change num)
      (old : Option Float)
      → read_level num raw ≡ change c
      → or_before (last_said p (raw ∷ levels)) old
        ≡ or_before (last_said p levels) (or_before (said p c) old)
  unfolding last_said
  last_said_step p raw levels c old h = elim (Option-cases (last_said p levels)) [
    | inl silent ↦ ground arith
    | inr (x, spoke) ↦ ground arith
  ]

  last_said_stop :
      (p : Float) (raw : List (Json num)) (levels : List (List (Json num))) (e : BookError)
      → read_level num raw ≡ bad e
      → last_said p (raw ∷ levels) ≡ none
  unfolding last_said
  last_said_stop p raw levels e h = rw (h, last_said)

  -- After `applyLevels` a price holds what the last level that names it says, and what it held
  -- before where no level does; the levels from the first refused one on do not count.
  pub lookup-apply_levels :
      (p : Float) (side : Map Float Float) (levels : List (List (Json num)))
      → lookup ⦃e = float_eq⦄ p (apply_levels num side levels).0
        ≡ or_before (last_said p levels) (lookup ⦃e = float_eq⦄ p side)
  lookup-apply_levels p side [] = unfold apply_levels last_said in refl
  lookup-apply_levels p side (raw ∷ levels) = elim (Read-cases (read_level num raw)) [
    | inl (e, refused) ↦
        rw (levels_stop side raw levels e refused, last_said_stop p raw levels e refused)
    | inr (c, accepted) ↦ rw (levels_step side raw levels c accepted) (
        lookup-apply_levels p (change_side num c side) levels
        ∙ ap (or_before (last_said p levels)) (lookup-change_side p c side)
        ∙ sym (last_said_step p raw levels c _ accepted))
  ]
