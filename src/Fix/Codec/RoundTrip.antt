-- ===== src/Fix/Codec/RoundTrip.antt =====
-- `ParseStrict` reads back what `Encode` writes.
use venuewire.Prelude.{
  ℕ, suc, ◌+◌, ◌≤◌, ◌<◌, ◌≡◌, refl, ap, sym, ◌∙◌, some, List, [], ◌∷◌, ◌++◌, arith, append_assoc,
  length, length-append, Text, is_empty, All, ok, map, take, take-append, drop,
}
use venuewire.Prelude.Int.{pos}
use venuewire.Fix.Decimal.{print_nat, max_int, atoi, digits_value}
use venuewire.Fix.Decimal.RoundTrip.{print_nat-All, atoi-print_nat}
use venuewire.Fix.Bytes.{soh, cut, split, split_last, index_byte, last_index, has_prefix}
use venuewire.Fix.Bytes.Search.{
  Lacks, index_byte-append, split-append, split-Lacks, split_last-append, last_index-append,
}
use venuewire.Fix.Codec.{
  Field, Message, ParseOptions, Layout, parse_field, parse_fields, pad3, declared_sum, lay_out,
  frame_offsets, check_frame, parse_parts, parse, parse_strict, strict, encode, frame, header,
  trailer, check_sum, default_begin, marker,
}
use venuewire.Fix.Codec.Encoding.{
  IsWritable, field_text, join, begin_text, length_text, sum_text, start_of, sum_of, frame_parts,
  frame_start, encode-ok,
}
use venuewire.Fix.Codec.Fields.{digits-Lacks, HasIntTag, split-join, parse_fields-map}

pub sum_of_lt : (b body : Text) → sum_of b body < 256
unfolding check_sum
sum_of_lt b body = omega arith

declared_sum-pad3 : (n : ℕ) → n < 256 → declared_sum (pad3 n) ≡ ok n
unfolding declared_sum pad3 atoi digits_value
declared_sum-pad3 n h = ground arith

sum_text-Lacks : (n : ℕ) → n < 256 → Lacks soh (sum_text n)
unfolding pad3
sum_text-Lacks n h = omega arith

-- the digits of a checksum are not the marker
last_index-trailer : (n : ℕ) → n < 256 → last_index marker (soh ∷ trailer n) ≡ some 0
unfolding last_index trailer pad3 has_prefix
last_index-trailer n h = ground arith

drop-suc-append : (s rest : Text) (c : ℕ) → drop (suc (length s)) (s ++ c ∷ rest) ≡ rest
drop-suc-append [] rest c = refl
drop-suc-append (x ∷ s) rest c = drop-suc-append s rest c

frame_offsets-parts :
    (raw s1 x s2 y p t : Text)
    → Lacks soh s1
    → Lacks soh s2
    → raw ≡ s1 ++ (soh ∷ x)
    → x ≡ s2 ++ (soh ∷ y)
    → raw ≡ p ++ t
    → last_index marker t ≡ some 0
    → frame_offsets raw ≡ ok (length s1 + 1 + length s2 + 1, length p + 0 + 1)
unfolding frame_offsets
frame_offsets-parts raw s1 x s2 y p t l1 l2 e1 e2 e3 h =
    let first : index_byte soh raw ≡ some (length s1) = rw e1 (index_byte-append soh s1 x l1) in
    let rest : drop (suc (length s1)) raw ≡ x = rw e1 (drop-suc-append s1 x soh) in
    let second : index_byte soh x ≡ some (length s2) = rw e2 (index_byte-append soh s2 y l2) in
    let last : last_index marker raw ≡ some (length p + 0) =
      rw e3 (last_index-append marker p t h) in
    rw first (rw rest (rw second (rw last)))

-- a body that is not empty ends in a delimiter
join_end : (f : Field) (gs : List Field) → (p : Text) × (join (f ∷ gs) ≡ p ++ (soh ∷ []))
unfolding join
join_end f [] = (field_text f, refl)
join_end f (g ∷ gs) =
    let (p, e) = join_end g gs in
    (field_text f ++ (soh ∷ p), rw e (sym (append_assoc (field_text f) (soh ∷ p) (soh ∷ []))))

check_frame-exact :
    (raw b : Text) (fs : List Field) (len sum body_start sum_start : ℕ)
    → len ≤ max_int
    → sum < 256
    → frame_offsets raw ≡ ok (body_start, sum_start)
    → sum_start ≡ body_start + len
    → check_sum (take sum_start raw) ≡ sum
    → check_frame raw strict
        (record { begin_string = b; body_length = print_nat len; body = fs; check_sum = pad3 sum })
      ≡ ok (record {
        begin_string = b;
        body_length = pos len;
        check_sum = pos sum;
        fields = fs;
        raw = raw;
      })
unfolding check_frame
check_frame-exact raw b fs len sum body_start sum_start fits small offsets covers sums =
    rw (atoi-print_nat len fits) (rw (declared_sum-pad3 sum small) (rw offsets (ground arith)))

regroup :
    (h body p : Text) (c : ℕ) (t : Text)
    → body ≡ p ++ (c ∷ [])
    → (h ++ body) ++ t ≡ (h ++ p) ++ (c ∷ t)
regroup h body p c t e = rw e (simp append_assoc)

regroup_length :
    (h body p : Text) (c : ℕ) → body ≡ p ++ (c ∷ []) → length (h ++ p) + 0 + 1 ≡ length (h ++ body)
regroup_length h body p c e = rw e (simp length-append (omega arith))

parse_parts-steps :
    (raw : Text) (options : ParseOptions) (parts : List Text) {fields : List Field}
    {layout : Layout} {m : Message}
    → 4 ≤ length parts
    → parse_fields parts ≡ ok fields
    → lay_out fields ≡ ok layout
    → check_frame raw options layout ≡ ok m
    → parse_parts raw options parts ≡ ok m
unfolding parse_parts
parse_parts-steps raw options parts long read laid checked = ground arith

parse-steps :
    (raw init : Text) (options : ParseOptions) (parts : List Text) {m : Message}
    → raw ≡ init ++ (soh ∷ [])
    → split soh init ≡ parts
    → parse_parts raw options parts ≡ ok m
    → parse raw options ≡ ok m
unfolding parse
parse-steps raw init options parts e cuts h =
    let last : split_last raw ≡ some (init, soh) = rw e (split_last-append init soh) in
    rw last (rw cuts h)

enough_parts :
    (fs : List Field) (f : Field) (gs : List Field) (p q r : Text)
    → fs ≡ f ∷ gs
    → 4 ≤ length (p ∷ q ∷ (map field_text fs ++ (r ∷ [])))
enough_parts fs f gs p q r e = rw e (omega (arith, length-append (map field_text gs) (r ∷ [])))

field_of : ℕ → Text → Field
field_of n value = record { tag = pos n; value = value }

lay_out-frame :
    (b l c : Text) (fs : List Field) (f : Field) (gs : List Field)
    → fs ≡ f ∷ gs
    → f.tag ≡ pos 35
    → lay_out (field_of 8 b ∷ field_of 9 l ∷ (fs ++ field_of 10 c ∷ []))
      ≡ ok (record { begin_string = b; body_length = l; body = fs; check_sum = c })
unfolding lay_out field_of
lay_out-frame b l c fs f gs shape e =
    rw shape (ground (arith, split_last-append (f ∷ gs) (field_of 10 c)))

parse_field-begin : (b : Text) → parse_field (begin_text b) ≡ ok (field_of 8 b)
unfolding parse_field cut atoi digits_value is_empty field_of
parse_field-begin b = refl

parse_field-length : (l : Text) → parse_field (b'9' ∷ b'=' ∷ l) ≡ ok (field_of 9 l)
unfolding parse_field cut atoi digits_value is_empty field_of
parse_field-length l = refl

parse_field-sum : (c : Text) → parse_field (b'1' ∷ b'0' ∷ b'=' ∷ c) ≡ ok (field_of 10 c)
unfolding parse_field cut atoi digits_value is_empty field_of
parse_field-sum c = refl

parse_fields-frame :
    (b l c : Text) (fs : List Field)
    → All IsWritable fs
    → All HasIntTag fs
    → parse_fields
        (begin_text b ∷ (b'9' ∷ b'=' ∷ l) ∷ (map field_text fs ++ (b'1' ∷ b'0' ∷ b'=' ∷ c) ∷ []))
      ≡ ok (field_of 8 b ∷ field_of 9 l ∷ (fs ++ field_of 10 c ∷ []))
unfolding parse_fields
parse_fields-frame b l c fs w tags = rw (parse_field-begin b) (
    rw (parse_field-length l) (
      rw (
        parse_fields-map fs ((b'1' ∷ b'0' ∷ b'=' ∷ c) ∷ []) {gs = field_of 10 c ∷ []} w tags
          (rw (parse_field-sum c)))))

module _ (b : Text) (fs : List Field) (w : All IsWritable fs) (plain : Lacks soh b) where
  abbrev body : Text
  body = join fs

  -- the parts between the delimiters
  split-frame :
      split soh (
        begin_text b
        ++ (soh ∷ (length_text (length body) ++ (soh ∷ (body ++ sum_text (sum_of b body))))))
      ≡ begin_text b
        ∷ length_text (length body)
        ∷ (map field_text fs ++ (sum_text (sum_of b body) ∷ []))
  split-frame =
      split-append soh (begin_text b) _ (omega arith, (omega arith, plain))
      ∙ ap (◌∷◌ (begin_text b)) (
          split-append soh (length_text (length body)) _ (
            omega arith,
            (omega arith, digits-Lacks soh _ (omega arith) (print_nat-All (length body))),
          )
          ∙ ap (◌∷◌ (length_text (length body))) (
              split-join fs _ w
              ∙ ap (◌++◌ (map field_text fs))
                  (split-Lacks soh _ (sum_text-Lacks _ (sum_of_lt b body)))))

  start_length :
      length (start_of b body)
      ≡ length (begin_text b) + 1 + length (length_text (length body)) + 1 + length body
  unfolding header
  start_length = simp (append_assoc, length-append) (omega arith)

  frame_offsets-frame :
      (p : Text)
      → body ≡ p ++ (soh ∷ [])
      → frame_offsets (frame b body)
        ≡ ok (
          length (begin_text b) + 1 + length (length_text (length body)) + 1,
          length (start_of b body),
        )
  unfolding frame header
  frame_offsets-frame p e =
      frame_offsets-parts (frame b body) (begin_text b)
        (length_text (length body) ++ (soh ∷ (body ++ trailer (sum_of b body))))
        (length_text (length body)) (body ++ trailer (sum_of b body)) (header b (length body) ++ p)
        (soh ∷ trailer (sum_of b body)) (omega arith, (omega arith, plain))
        (omega arith, (omega arith, digits-Lacks soh _ (omega arith) (print_nat-All (length body))))
        (simp append_assoc) refl
        (frame_start b body
          ∙ regroup (header b (length body)) body p soh (trailer (sum_of b body)) e)
        (last_index-trailer (sum_of b body) (sum_of_lt b body))
      ∙ ap (λ n. ok (length (begin_text b) + 1 + length (length_text (length body)) + 1, n))
          (regroup_length (header b (length body)) body p soh e)

  -- what `ParseStrict` makes of a frame
  message_of : Message
  message_of = record {
    begin_string = b;
    body_length = pos (length body);
    check_sum = pos (sum_of b body);
    fields = fs;
    raw = frame b body;
  }

  parse_strict-frame :
      (f : Field) (gs : List Field)
      → fs ≡ f ∷ gs
      → f.tag ≡ pos 35
      → All HasIntTag fs
      → length body ≤ max_int
      → parse_strict (frame b body) ≡ ok message_of
  unfolding parse_strict message_of
  parse_strict-frame f gs shape first_tag tags fits =
      let (p, ends) = join_end f gs in
      parse-steps (frame b body) _ strict _ (frame_parts b body) split-frame (
        parse_parts-steps (frame b body) strict _
          (enough_parts fs f gs (begin_text b) (length_text (length body))
            (sum_text (sum_of b body)) shape)
          (parse_fields-frame b (print_nat (length body)) (pad3 (sum_of b body)) fs w tags)
          (lay_out-frame b (print_nat (length body)) (pad3 (sum_of b body)) fs f gs shape first_tag)
          (check_frame-exact (frame b body) b fs (length body) (sum_of b body) _ _ fits
            (sum_of_lt b body) (frame_offsets-frame p (ap join shape ∙ ends)) start_length
            (ap check_sum (
              ap (take (length (start_of b body))) (frame_start b body)
              ∙ take-append (start_of b body) (trailer (sum_of b body))))))

body_fits : (b body : Text) → length (frame b body) ≤ max_int → length body ≤ max_int
body_fits b body h = omega (
  arith,
  ap length (frame_start b body),
  length-append (start_of b body) (trailer (sum_of b body)),
  length-append (header b (length body)) body,
)

default_begin-Lacks : (b : Text) → Lacks soh b → Lacks soh (default_begin b)
unfolding is_empty
default_begin-Lacks [] h = omega arith
default_begin-Lacks (c ∷ b) h = h

-- What `Encode` writes, `ParseStrict` accepts, and reads the begin string and all fields back in
-- their order. The begin string must hold no delimiter, which `Encode` does not check; tags and the
-- length are those of Go's 64-bit `int`.
pub parse_strict-encode :
    (b : Text) (fs : List Field) {raw : Text}
    → encode b fs ≡ ok raw
    → Lacks soh b
    → All HasIntTag fs
    → length raw ≤ max_int
    → (m : Message) × (parse_strict raw ≡ ok m)
      × (m.begin_string ≡ default_begin b)
      × (m.fields ≡ fs)
      × (m.raw ≡ raw)
unfolding message_of
parse_strict-encode b fs h plain tags fits =
    let (w, shape, f, gs, split_fs, first_tag) = encode-ok b fs h in
    let begin = default_begin b in
    let clean = default_begin-Lacks b plain in
    (
      message_of begin fs w clean,
      rw shape (
          parse_strict-frame begin fs w clean f gs split_fs first_tag tags
            (body_fits begin (join fs) (rw shape at fits))),
      refl,
      refl,
      sym shape,
    )
