-- ===== src/Fix/Bytes.antt =====
-- What internal/fix uses of Go's package `bytes`.
pub mod Search
use venuewire.Prelude.{
  ℕ, zero, suc, ◌+◌, Bool, true, false, ◌&&◌, Option, none, some, List, [], ◌∷◌, ◌++◌, ◌==◌,
  if◌then◌else◌, Text,
}

abbrev pub soh : ℕ
soh = 0x01

-- `bytes.IndexByte`; `none` is -1.
unfoldable pub index_byte : ℕ → Text → Option ℕ
index_byte b [] = none
index_byte b (c ∷ s) =
    let rest = index_byte b s in
    if c == b then some 0 else (elim rest [ none ↦ none | some i ↦ some (i + 1) ])

-- `bytes.HasPrefix(s, p)`.
unfoldable pub has_prefix : Text → Text → Bool
has_prefix [] s = true
has_prefix (x ∷ p) [] = false
has_prefix (x ∷ p) (c ∷ s) = c == x && has_prefix p s

-- `bytes.LastIndex`, for a marker that is not empty.
unfoldable pub last_index : Text → Text → Option ℕ
unfolding has_prefix
last_index m [] = none
last_index m (c ∷ s) = elim (last_index m s) [
  | some i ↦ some (i + 1)
  | none ↦ if has_prefix m (c ∷ s) then some 0 else none
]

abbrev onto_first : ℕ → List Text → List Text
onto_first c [] = (c ∷ []) ∷ []
onto_first c (p ∷ ps) = (c ∷ p) ∷ ps

-- `bytes.Split` at one byte.
unfoldable pub split : ℕ → Text → List Text
split b [] = [] ∷ []
split b (c ∷ s) = let rest = split b s in if c == b then [] ∷ rest else onto_first c rest

-- The parts before and behind the first `b`.
unfoldable pub cut : ℕ → Text → Option (Text × Text)
cut b [] = none
cut b (c ∷ s) =
    let rest = cut b s in
    if c == b then some ([], s) else (elim rest [ none ↦ none | some (x, y) ↦ some (c ∷ x, y) ])

-- A list without its last element, and that element.
unfoldable pub split_last {ℓ} : {A : Type ℓ} → List A → Option (List A × A)
split_last [] = none
split_last (x ∷ []) = some ([], x)
split_last (x ∷ y ∷ xs) = elim (split_last (y ∷ xs)) [
  | none ↦ none
  | some (init, last) ↦ some (x ∷ init, last)
]
