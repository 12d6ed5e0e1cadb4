-- ===== src/Fix/Codec/Encoding.antt =====
-- What `Encode` writes.
use venuewire.Prelude.{
  ℕ, ◌<◌, ◌≡◌, ◌≢◌, refl, ap, inl, inr, List, [], ◌∷◌, ◌++◌, arith, append_assoc, length, Text, All,
  Option-cases, ok, Result-cases,
}
use venuewire.Prelude.Int.{ℤ, pos, negsuc, eqb_ℤ_iff}
use venuewire.Fix.Decimal.{print_int, print_nat}
use venuewire.Fix.Bytes.{soh, index_byte}
use venuewire.Fix.Bytes.Search.{Lacks, Lacks-index_byte}
use venuewire.Fix.Codec.{
  Field, encode_field, encode_body, encode, frame, header, trailer, pad3, check_sum, default_begin,
}

-- A field that `Encode` accepts.
pub record IsWritable (f : Field) : Type 0 where
  pub number : ℕ
  pub tag : f.tag ≡ pos number
  pub positive : 0 < number
  pub not_begin : number ≢ 8
  pub not_length : number ≢ 9
  pub not_sum : number ≢ 10
  pub value : Lacks soh f.value

abbrev pub field_text : Field → Text
field_text f = print_int f.tag ++ (b'=' ∷ f.value)

-- The fields one behind the other, each with its delimiter.
unfoldable pub join : List Field → Text
join [] = []
join (f ∷ fs) = field_text f ++ (soh ∷ join fs)

writable :
    (f : Field) (z : ℤ) {t : Text}
    → f.tag ≡ z
    → Lacks soh f.value
    → encode_field f ≡ ok t
    → IsWritable f
unfolding encode_field
writable f (pos n) e lacks h = record {
  number = n;
  tag = e;
  positive = ground arith;
  not_begin = ground arith;
  not_length = ground arith;
  not_sum = ground arith;
  value = lacks;
}
writable f (negsuc n) e lacks h = ground arith

encode_field-ok :
    (f : Field) {t : Text} → encode_field f ≡ ok t → IsWritable f × (t ≡ field_text f ++ (soh ∷ []))
unfolding encode_field
encode_field-ok f {t} h = elim (Option-cases (index_byte soh f.value)) [
  | inr (i, found) ↦ absurd (ground arith)
  | inl lacks ↦ (
    writable f f.tag refl (Lacks-index_byte soh f.value lacks) h,
    ground (arith, append_assoc (print_int f.tag) (b'=' ∷ f.value) (soh ∷ [])),
  )
]

pub encode_body-ok :
    (fs : List Field) {body : Text}
    → encode_body fs ≡ ok body
    → All IsWritable fs × (body ≡ join fs)
unfolding encode_body join
encode_body-ok [] h = (tt, ground arith)
encode_body-ok (f ∷ fs) {body} h = elim (Result-cases (encode_field f)) [
  | inl (e, refused) ↦ ground arith
  | inr (head, wrote) ↦ elim (Result-cases (encode_body fs)) [
    | inl (e, refused) ↦ ground arith
    | inr (tail, rest) ↦
        let (w, is_head) = encode_field-ok f wrote in
        let (ws, is_tail) = encode_body-ok fs rest in
        ((w, ws), ground (arith, append_assoc (field_text f) (soh ∷ []) (join fs)))
  ]
]

-- The three texts around the body, without the delimiters behind them.
abbrev pub begin_text : Text → Text
begin_text b = b'8' ∷ b'=' ∷ b

abbrev pub length_text : ℕ → Text
length_text n = b'9' ∷ b'=' ∷ print_nat n

abbrev pub sum_text : ℕ → Text
sum_text n = b'1' ∷ b'0' ∷ b'=' ∷ pad3 n

abbrev pub start_of : Text → Text → Text
start_of b body = header b (length body) ++ body

abbrev pub sum_of : Text → Text → ℕ
sum_of b body = check_sum (start_of b body)

pub frame_parts :
    (b body : Text)
    → frame b body
      ≡ (begin_text b
          ++ (soh ∷ (length_text (length body) ++ (soh ∷ (body ++ sum_text (sum_of b body))))))
        ++ (soh ∷ [])
unfolding frame header trailer
frame_parts b body = simp append_assoc

pub frame_start : (b body : Text) → frame b body ≡ start_of b body ++ trailer (sum_of b body)
unfolding frame
frame_start b body = refl

pub encode-ok :
    (b : Text) (fs : List Field) {raw : Text}
    → encode b fs ≡ ok raw
    → All IsWritable fs
      × (raw ≡ frame (default_begin b) (join fs))
      × (f : Field) × (gs : List Field) × (fs ≡ f ∷ gs)
      × (f.tag ≡ pos 35)
unfolding encode
encode-ok b [] h = cc h
encode-ok b (f ∷ gs) h = elim (Result-cases (encode_body (f ∷ gs))) [
  | inl (e, refused) ↦ ground arith
  | inr (body, wrote) ↦
      let (w, is_body) = encode_body-ok (f ∷ gs) wrote in
      (
        w,
        ground (arith, ap (frame (default_begin b)) is_body),
        f,
        gs,
        refl,
        ground (arith, eqb_ℤ_iff f.tag (pos 35)),
      )
]
