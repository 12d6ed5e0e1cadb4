-- ===== src/Fix/Codec.antt =====
-- `Encode`, `CheckSum`, `Parse` and the lookups of internal/fix/codec.go. A message of bytes is a
-- list of numbers. The partly filled message that `Parse` returns beside an error is not modelled.
pub mod Encoding
pub mod Fields
pub mod RoundTrip
use venuewire.Prelude.{
  ℕ, zero, suc, ◌+◌, ◌/◌, ◌%◌, ◌^◌, Bool, true, false, not, ◌&&◌, ◌||◌, Option, none, some, List,
  [], ◌∷◌, ◌++◌, ◌==◌, leb, ltb, length, if◌then◌else◌, Text, codes, is_empty, take, drop, Result,
  ok, err, ◌>>=◌, ◌>>◌, refuse_if, or_err,
}
use venuewire.Prelude.Int.{ℤ, pos, eqb_ℤ, leb_ℤ}
use venuewire.Fix.Decimal.{atoi, print_int, print_nat}
use venuewire.Fix.Bytes.{soh, index_byte, last_index, split, cut, split_last}

pub record Field : Type 0 where
  pub tag : ℤ
  pub value : Text

pub record Message : Type 0 where
  pub begin_string : Text
  pub body_length : ℤ
  pub check_sum : ℤ
  pub fields : List Field
  pub raw : Text

pub data CodecError : Type 0 where
  no_msg_type invalid_body_tag value_has_soh : CodecError
  no_final_soh too_few_fields malformed_field invalid_tag : CodecError
  begin_string_not_first body_length_not_second msg_type_not_third check_sum_not_last : CodecError
  bad_body_length bad_check_sum : CodecError
  no_begin_delimiter no_length_delimiter no_check_sum_field : CodecError

-- `Get`: the first field with the tag.
unfoldable pub get : ℤ → List Field → Option Text
get tag [] = none
get tag (f ∷ fs) = if eqb_ℤ f.tag tag then some f.value else get tag fs

-- `Values`: all of them, in wire order.
unfoldable pub values : ℤ → List Field → List Text
values tag [] = []
values tag (f ∷ fs) = let rest = values tag fs in if eqb_ℤ f.tag tag then f.value ∷ rest else rest

unfoldable pub sum_from : ℕ → Text → ℕ
sum_from n [] = n
sum_from n (c ∷ s) = sum_from ((n + c) % 2 ^ 64) s

unfoldable pub check_sum : Text → ℕ
unfolding sum_from
check_sum s = sum_from 0 s % 256

abbrev is_body_tag : ℤ → Bool
is_body_tag tag =
    not (leb_ℤ tag (pos 0) || eqb_ℤ tag (pos 8) || eqb_ℤ tag (pos 9) || eqb_ℤ tag (pos 10))

abbrev is_none {ℓ} : {A : Type ℓ} → Option A → Bool
is_none none = true
is_none (some _) = false

unfoldable pub encode_field : Field → Result CodecError Text
encode_field f = do
  refuse_if (not (is_body_tag f.tag)) invalid_body_tag
  refuse_if (not (is_none (index_byte soh f.value))) value_has_soh
  ok (print_int f.tag ++ (b'=' ∷ (f.value ++ (soh ∷ []))))

-- The loop that writes the body.
unfoldable pub encode_body : List Field → Result CodecError Text
unfolding encode_field
encode_body [] = ok []
encode_body (f ∷ fs) = do head ← encode_field f; tail ← encode_body fs; ok (head ++ tail)

-- `%03d` of a number below 1000.
unfoldable pub pad3 : ℕ → Text
pad3 n = (b'0' + n / 100) ∷ (b'0' + n / 10 % 10) ∷ (b'0' + n % 10) ∷ []

unfoldable pub header : Text → ℕ → Text
header begin_string body_length =
    b'8' ∷ b'=' ∷ (begin_string ++ (soh ∷ b'9' ∷ b'=' ∷ (print_nat body_length ++ (soh ∷ []))))

unfoldable pub trailer : ℕ → Text
unfolding pad3
trailer sum = b'1' ∷ b'0' ∷ b'=' ∷ (pad3 sum ++ (soh ∷ []))

abbrev starts_with_msg_type : List Field → Bool
starts_with_msg_type [] = false
starts_with_msg_type (f ∷ _) = eqb_ℤ f.tag (pos 35)

abbrev pub default_begin : Text → Text
default_begin s = if is_empty s then codes "FIX.4.4" else s

unfoldable pub frame : Text → Text → Text
unfolding header trailer check_sum
frame begin_string body =
    let start = header begin_string (length body) ++ body in start ++ trailer (check_sum start)

unfoldable pub encode : Text → List Field → Result CodecError Text
encode begin_string fields = do
  refuse_if (not (starts_with_msg_type fields)) no_msg_type
  body ← encode_body fields
  ok (frame (default_begin begin_string) body)

pub record ParseOptions : Type 0 where
  pub validate_body_length : Bool
  pub validate_check_sum : Bool

-- One `tag=value`.
unfoldable pub parse_field : Text → Result CodecError Field
parse_field part = do
  (before, value) ← or_err (cut b'=' part) malformed_field
  refuse_if (is_empty before) malformed_field
  tag ← or_err (atoi before) invalid_tag
  refuse_if (leb_ℤ tag (pos 0)) invalid_tag
  ok (record { tag = tag; value = value })

unfoldable pub parse_fields : List Text → Result CodecError (List Field)
unfolding parse_field
parse_fields [] = ok []
parse_fields (p ∷ ps) = do f ← parse_field p; fs ← parse_fields ps; ok (f ∷ fs)

-- The first two fields, the body and the last field, with their tags checked in this order.
pub record Layout : Type 0 where
  pub begin_string : Text
  pub body_length : Text
  pub body : List Field
  pub check_sum : Text

abbrev check_last : Text → Text → Option (List Field × Field) → Result CodecError Layout
check_last b l none = err too_few_fields
check_last b l (some (body, last)) =
    refuse_if (not (eqb_ℤ last.tag (pos 10))) check_sum_not_last
    >> ok (record { begin_string = b; body_length = l; body = body; check_sum = last.value })

unfoldable pub lay_out : List Field → Result CodecError Layout
lay_out (f0 ∷ f1 ∷ f2 ∷ fs) = do
  refuse_if (not (eqb_ℤ f0.tag (pos 8))) begin_string_not_first
  refuse_if (not (eqb_ℤ f1.tag (pos 9))) body_length_not_second
  refuse_if (not (eqb_ℤ f2.tag (pos 35))) msg_type_not_third
  check_last f0.value f1.value (split_last (f2 ∷ fs))
lay_out _ = err too_few_fields

abbrev pub marker : Text
marker = soh ∷ b'1' ∷ b'0' ∷ b'=' ∷ []

-- Where the body and the checksum field start.
unfoldable pub frame_offsets : Text → Result CodecError (ℕ × ℕ)
frame_offsets raw = do
  first_end ← or_err (index_byte soh raw) no_begin_delimiter
  second ← or_err (index_byte soh (drop (suc first_end) raw)) no_length_delimiter
  at ← or_err (last_index marker raw) no_check_sum_field
  ok (first_end + 1 + second + 1, at + 1)

-- A declared body length is not negative, so that comparing it with `checksumStart - bodyStart`
-- is comparing the sum with `checksumStart`.
abbrev pub nat_of : ℤ → Option ℕ
nat_of (pos n) = some n
nat_of _ = none

abbrev pub natural : Option ℤ → Option ℕ
natural none = none
natural (some n) = nat_of n

unfoldable pub declared_sum : Text → Result CodecError ℕ
declared_sum s = do
  n ← or_err (natural (atoi s)) bad_check_sum
  refuse_if (not (length s == 3) || ltb 255 n) bad_check_sum
  ok n

-- The checks behind the field list.
unfoldable pub check_frame : Text → ParseOptions → Layout → Result CodecError Message
unfolding frame_offsets declared_sum check_sum
check_frame raw options layout = do
  body_length ← or_err (natural (atoi layout.body_length)) bad_body_length
  sum ← declared_sum layout.check_sum
  (body_start, sum_start) ← frame_offsets raw
  refuse_if (options.validate_body_length && not (sum_start == body_start + body_length))
      bad_body_length
  refuse_if (options.validate_check_sum && not (check_sum (take sum_start raw) == sum))
      bad_check_sum
  ok (record {
    begin_string = layout.begin_string;
    body_length = pos body_length;
    check_sum = pos sum;
    fields = layout.body;
    raw = raw;
  })

unfoldable pub parse_parts : Text → ParseOptions → List Text → Result CodecError Message
parse_parts raw options parts = do
  refuse_if (ltb (length parts) 4) too_few_fields
  fields ← parse_fields parts
  layout ← lay_out fields
  check_frame raw options layout

unfoldable pub parse : Text → ParseOptions → Result CodecError Message
parse raw options = do
  (body, last) ← or_err (split_last raw) no_final_soh
  refuse_if (not (last == soh)) no_final_soh
  parse_parts raw options (split soh body)

abbrev pub strict : ParseOptions
strict = record { validate_body_length = true; validate_check_sum = true }

unfoldable pub parse_strict : Text → Result CodecError Message
unfolding parse
parse_strict raw = parse raw strict

unfoldable pub parse_lenient : Text → Result CodecError Message
unfolding parse
parse_lenient raw = parse raw (record { validate_body_length = false; validate_check_sum = false })
