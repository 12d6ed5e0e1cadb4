-- ===== src/Fix/Bytes/Search.antt =====
-- Where the searches stop on a text that is put together from parts.
use venuewire.Prelude.{
  ℕ, ◌+◌, ◌<◌, ◌≡◌, ◌≢◌, refl, ap, ◌∙◌, inl, inr, true, none, some, List, [], ◌∷◌, ◌++◌, arith,
  length, Text, All, Bool-cases, Option-cases, ◌==◌,
}
use venuewire.Fix.Bytes.{index_byte, has_prefix, last_index, split, cut, split_last}

-- The byte `b` does not occur.
abbrev pub Lacks : ℕ → Text → Type 0
Lacks b = All (λ c. c ≢ b)

pub index_byte-append :
    (b : ℕ) (s rest : Text) → Lacks b s → index_byte b (s ++ b ∷ rest) ≡ some (length s)
unfolding index_byte
index_byte-append b [] rest h = ground arith
index_byte-append b (c ∷ s) rest h = ground (arith, index_byte-append b s rest h.1)

pub index_byte-Lacks : (b : ℕ) (s : Text) → Lacks b s → index_byte b s ≡ none
unfolding index_byte
index_byte-Lacks b [] h = refl
index_byte-Lacks b (c ∷ s) h = ground (arith, index_byte-Lacks b s h.1)

pub Lacks-index_byte : (b : ℕ) (s : Text) → index_byte b s ≡ none → Lacks b s
unfolding index_byte
Lacks-index_byte b [] h = tt
Lacks-index_byte b (c ∷ s) h = ground (arith, Lacks-index_byte b s)

pub split-Lacks : (b : ℕ) (s : Text) → Lacks b s → split b s ≡ s ∷ []
unfolding split
split-Lacks b [] h = refl
split-Lacks b (c ∷ s) h = ground (arith, split-Lacks b s h.1)

pub split-append : (b : ℕ) (s rest : Text) → Lacks b s → split b (s ++ b ∷ rest) ≡ s ∷ split b rest
unfolding split
split-append b [] rest h = ground arith
split-append b (c ∷ s) rest h = ground (arith, split-append b s rest h.1)

pub cut-append : (b : ℕ) (s rest : Text) → Lacks b s → cut b (s ++ b ∷ rest) ≡ some (s, rest)
unfolding cut
cut-append b [] rest h = ground arith
cut-append b (c ∷ s) rest h = ground (arith, cut-append b s rest h.1)

pub split_last-append {ℓ} :
    {A : Type ℓ} (xs : List A) (x : A) → split_last (xs ++ x ∷ []) ≡ some (xs, x)
unfolding split_last
split_last-append [] x = refl
split_last-append (y ∷ []) x = refl
split_last-append (y ∷ z ∷ xs) x = rw (split_last-append (z ∷ xs) x)

pub has_prefix-append : (p s : Text) → has_prefix p (p ++ s) ≡ true
unfolding has_prefix
has_prefix-append [] s = refl
has_prefix-append (x ∷ p) s = ground (arith, has_prefix-append p s)

-- A later occurrence of the marker is found behind any text.
pub last_index-append :
    (m s t : Text) {i : ℕ} → last_index m t ≡ some i → last_index m (s ++ t) ≡ some (length s + i)
unfolding last_index
last_index-append m [] t h = h ∙ ap some (omega arith)
last_index-append m (c ∷ s) t h = rw (last_index-append m s t h) (ap some (omega arith))

-- What was found stays found when more bytes come.
pub index_byte-more :
    (b : ℕ) (s t : Text) {i : ℕ}
    → index_byte b s ≡ some i
    → (index_byte b (s ++ t) ≡ some i) × (i < length s)
unfolding index_byte
index_byte-more b [] t h = cc
index_byte-more b (c ∷ s) t {i} h = elim (Bool-cases (c == b)) [
  | inl hit ↦ ground arith
  | inr miss ↦ elim (Option-cases (index_byte b s)) [
    | inl lacks ↦ ground arith
    | inr (j, found) ↦ ground (arith, index_byte-more b s t {i = j} found)
  ]
]

pub has_prefix-more : (p s t : Text) → has_prefix p s ≡ true → has_prefix p (s ++ t) ≡ true
unfolding has_prefix
has_prefix-more [] s t h = refl
has_prefix-more (x ∷ p) [] t h = cc
has_prefix-more (x ∷ p) (c ∷ s) t h = ground (arith, has_prefix-more p s t)
