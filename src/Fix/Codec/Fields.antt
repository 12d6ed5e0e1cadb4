-- ===== src/Fix/Codec/Fields.antt =====
-- `Parse` reads back the fields, one by one.
use venuewire.Prelude.{
  ℕ, ◌≤◌, ◌<◌, ◌≡◌, ◌≢◌, refl, ap, ◌∙◌, some, List, [], ◌∷◌, ◌++◌, arith, append_assoc, Text,
  is_empty, All, ok, map,
}
use venuewire.Prelude.Int.{pos}
use venuewire.Fix.Decimal.{print_int, print_nat, max_int, atoi}
use venuewire.Fix.Decimal.RoundTrip.{IsDigit, print_nat-All, print_nat-ne-nil, atoi-print_nat}
use venuewire.Fix.Bytes.{soh, cut, split}
use venuewire.Fix.Bytes.Search.{Lacks, cut-append, split-append}
use venuewire.Fix.Codec.{Field, parse_field, parse_fields}
use venuewire.Fix.Codec.Encoding.{IsWritable, field_text, join}

-- Digits lack every byte that is no digit.
pub digits-Lacks : (b : ℕ) (s : Text) → b < b'0' → All IsDigit s → Lacks b s
digits-Lacks b [] lt h = tt
digits-Lacks b (c ∷ s) lt h = (omega arith, digits-Lacks b s lt h.1)

-- A tag above `'9'` is no digit either; this is for `'='`.
pub digits-Lacks_above : (b : ℕ) (s : Text) → b'9' < b → All IsDigit s → Lacks b s
digits-Lacks_above b [] lt h = tt
digits-Lacks_above b (c ∷ s) lt h = (omega arith, digits-Lacks_above b s lt h.1)

pub Lacks-append : (b : ℕ) (s t : Text) → Lacks b s → Lacks b t → Lacks b (s ++ t)
Lacks-append b [] t hs ht = ht
Lacks-append b (c ∷ s) t hs ht = (hs.0, Lacks-append b s t hs.1 ht)

-- A tag is an `int`.
abbrev pub HasIntTag : Field → Type 0
HasIntTag f = (n : ℕ) → f.tag ≡ pos n → n ≤ max_int

pub print_int-pos : (n : ℕ) → print_int (pos n) ≡ print_nat n
unfolding print_int
print_int-pos n = refl

parse_field-print :
    (n : ℕ) (s value : Text)
    → s ≢ []
    → cut b'=' (s ++ b'=' ∷ value) ≡ some (s, value)
    → atoi s ≡ some (pos n)
    → 0 < n
    → parse_field (s ++ b'=' ∷ value) ≡ ok (record { tag = pos n; value = value })
unfolding parse_field is_empty
parse_field-print n [] value ne c a p = absurd (ne refl)
parse_field-print n (d ∷ s) value ne c a p = ground arith

pub parse_field-text : (f : Field) → IsWritable f → HasIntTag f → parse_field (field_text f) ≡ ok f
parse_field-text f w fits =
    rw (w.tag, print_int-pos)
      (parse_field-print w.number (print_nat w.number) f.value (print_nat-ne-nil w.number)
        (cut-append b'=' (print_nat w.number) f.value
          (digits-Lacks_above b'=' _ (omega arith) (print_nat-All w.number)))
        (atoi-print_nat w.number (fits w.number w.tag)) w.positive)

field_text-Lacks : (f : Field) → IsWritable f → Lacks soh (field_text f)
field_text-Lacks f w =
    rw (w.tag, print_int-pos)
      (Lacks-append soh (print_nat w.number) (b'=' ∷ f.value)
        (digits-Lacks soh _ (omega arith) (print_nat-All w.number)) (omega arith, w.value))

pub split-join :
    (fs : List Field) (rest : Text)
    → All IsWritable fs
    → split soh (join fs ++ rest) ≡ map field_text fs ++ split soh rest
unfolding join
split-join [] rest h = refl
split-join (f ∷ fs) rest h = rw append_assoc (
    split-append soh (field_text f) (join fs ++ rest) (field_text-Lacks f h.0)
    ∙ ap (◌∷◌ (field_text f)) (split-join fs rest h.1))

pub parse_fields-map :
    (fs : List Field) (ps : List Text) {gs : List Field}
    → All IsWritable fs
    → All HasIntTag fs
    → parse_fields ps ≡ ok gs
    → parse_fields (map field_text fs ++ ps) ≡ ok (fs ++ gs)
unfolding parse_fields
parse_fields-map [] ps w fits h = h
parse_fields-map (f ∷ fs) ps w fits h =
    rw (parse_field-text f w.0 fits.0) (rw (parse_fields-map fs ps w.1 fits.1 h))
