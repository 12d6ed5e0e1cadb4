-- ===== src/QuickTrade/Cache/Listed.antt =====
-- The identifiers that a cache lists.
use venuewire.Prelude.{
  ◌≡◌, refl, inl, inr, ◌⊎◌, Bool, true, false, some, List, [], ◌∷◌, ◌++◌, length, if◌then◌else◌,
  Text, text_eq, same, same_iff, same_refl, Bool-cases, arith,
}
use venuewire.Prelude.Map.{Map, lookup, erase, lookup-erase}
use venuewire.Intent.Types.{QuickTradeQuote}

abbrev pub Quotes : Type 0
Quotes = Map Text QuickTradeQuote

-- The identifier stands in the list.
unfoldable pub listed : Text → List Text → Bool
listed id [] = false
listed id (x ∷ xs) = if same x id then true else listed id xs

-- Every quote is listed.
abbrev pub IsListed : Quotes → List Text → Type 0
IsListed quotes ids =
    (id : Text) (q : QuickTradeQuote) → lookup id quotes ≡ some q → listed id ids ≡ true

pub lookup-erase_cases :
    (k j : Text) (m : Quotes) {q : QuickTradeQuote}
    → lookup j (erase k m) ≡ some q
    → (same k j ≡ false) × (lookup j m ≡ some q)
lookup-erase_cases k j m h = elim (Bool-cases (same k j)) [
  | inl eq ↦ absurd (ground (arith, lookup-erase k j m))
  | inr ne ↦ (ne, ground (arith, lookup-erase k j m))
]

pub listed-tail :
    (id x : Text) (xs : List Text)
    → listed id (x ∷ xs) ≡ true
    → same x id ≡ false
    → listed id xs ≡ true
unfolding listed
listed-tail id x xs h ne = ground arith

pub empty-Quotes : (quotes : Quotes) → IsListed quotes [] → length quotes ≡ 0
unfolding lookup listed
empty-Quotes [] h = refl
empty-Quotes ((k, q) ∷ m) h =
    let found : (if same k k then some q else lookup k m) ≡ some q = rw (same_refl k) refl in
    cc (h k q found)

pub erase-IsListed :
    (id : Text) (ids : List Text) (quotes : Quotes)
    → IsListed quotes (id ∷ ids)
    → IsListed (erase id quotes) ids
erase-IsListed id ids quotes h j q found =
    let (ne, old) = lookup-erase_cases id j quotes found in listed-tail j id ids (h j q old) ne

pub listed_cases :
    (j x : Text) (xs : List Text) → listed j (x ∷ xs) ≡ true → (x ≡ j) ⊎ (listed j xs ≡ true)
unfolding listed
listed_cases j x xs h = elim (Bool-cases (same x j)) [
  | inl eq ↦ inl ((same_iff x j).0 eq)
  | inr ne ↦ inr (rw ne at h)
]

pub listed-head : (x : Text) (xs : List Text) → listed x (x ∷ xs) ≡ true
unfolding listed
listed-head x xs = rw (same_refl x) refl

pub listed-rest : (j x : Text) (xs : List Text) → listed j xs ≡ true → listed j (x ∷ xs) ≡ true
unfolding listed
listed-rest j x xs h = ground arith

pub listed-append :
    (j x : Text) (xs : List Text) → listed j xs ≡ true → listed j (xs ++ x ∷ []) ≡ true
unfolding listed
listed-append j x [] h = cc h
listed-append j x (y ∷ ys) h = elim (Bool-cases (same y j)) [
  | inl here ↦ rw here refl
  | inr there ↦ rw there (listed-append j x ys (rw there at h))
]

pub listed-last : (x : Text) (xs : List Text) → listed x (xs ++ x ∷ []) ≡ true
unfolding listed
listed-last x [] = rw (same_refl x) refl
listed-last x (y ∷ ys) = let rest = listed-last x ys in ground arith
