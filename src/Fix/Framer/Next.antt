-- ===== src/Fix/Framer/Next.antt =====
-- A frame that `nextFrame` has cut is cut from any longer buffer too.
use venuewire.Prelude.{
  ℕ, zero, suc, ◌+◌, ◌≤◌, ◌<◌, ◌≡◌, ap, sym, ◌∙◌, inl, inr, true, some, [], ◌∷◌, ◌++◌, arith, leb,
  leb→le, length, length-append, take, drop, drop-append_le, take-append_le, Text, ok, err,
  Result-cases, Option-cases, Bool-cases,
}
use venuewire.Prelude.Int.{ℤ, pos, ◌≤ℤ◌}
use venuewire.Fix.Decimal.{max_int, atoi}
use venuewire.Fix.Bytes.{soh, index_byte, has_prefix}
use venuewire.Fix.Bytes.Search.{index_byte-more, has_prefix-more}
use venuewire.Fix.Codec.{natural}
use venuewire.Fix.Framer.{
  panics, int_of, slice_from, byte_at, byte_before, read_length, cut_frame, next_frame,
}

-- The two delimiters of the head of a frame.
pub record HasHead (buffer : Text) (body_start body_length : ℕ) : Type 0 where
  pub first_end : ℕ
  pub second : ℕ
  pub first_at : index_byte soh buffer ≡ some first_end
  pub second_at : index_byte soh (drop (suc first_end) buffer) ≡ some second
  pub nine : has_prefix (b'9' ∷ b'=' ∷ []) (take second (drop (suc first_end) buffer)) ≡ true
  pub declared :
      natural (atoi (drop 2 (take second (drop (suc first_end) buffer)))) ≡ some body_length
  pub start : body_start ≡ first_end + 1 + second + 1

read_length-ok : (buffer : Text) {s n : ℕ} → read_length buffer ≡ ok (s, n) → HasHead buffer s n
unfolding read_length
read_length-ok buffer {s} {n} h = elim (Option-cases (index_byte soh buffer)) [
  | inl lacks ↦ absurd (ground arith)
  | inr (i, at) ↦ elim (Option-cases (index_byte soh (drop (suc i) buffer))) [
    | inl lacks ↦ absurd (ground arith)
    | inr (j, at') ↦ elim (Option-cases (natural (atoi (drop 2 (take j (drop (suc i) buffer)))))) [
      | inl bad ↦ absurd (ground arith)
      | inr (m, good) ↦ record {
        first_end = i;
        second = j;
        first_at = at;
        second_at = at';
        nine = ground arith;
        declared = ground arith;
        start = ground arith;
      }
    ]
  ]
]

HasHead-read_length :
    (buffer : Text) (s n : ℕ) → HasHead buffer s n → read_length buffer ≡ ok (s, n)
unfolding read_length
HasHead-read_length buffer s n h =
    rw h.first_at (rw h.second_at (rw h.nine (rw h.declared (rw h.start))))

HasHead-more : (buffer more : Text) (s n : ℕ) → HasHead buffer s n → HasHead (buffer ++ more) s n
HasHead-more buffer more s n h =
    let (first, lt) = index_byte-more soh buffer more h.first_at in
    let (second, lt') = index_byte-more soh (drop (suc h.first_end) buffer) more h.second_at in
    let rest = drop-append_le (suc h.first_end) buffer more lt in
    let field = ap (take h.second) rest ∙ take-append_le h.second _ more (omega arith) in
    record {
      first_end = h.first_end;
      second = h.second;
      first_at = first;
      second_at = rw rest second;
      nine = rw field h.nine;
      declared = rw field h.declared;
      start = h.start;
    }

-- A frame of `size` bytes stands at the front of the buffer.
pub record HasFrame (buffer : Text) (max_size : ℤ) (body_start body_length : ℕ) : Type 0 where
  pub fits : body_start + body_length + 7 ≤ max_int
  pub allowed : pos (body_start + body_length + 7) ≤ℤ max_size
  pub here : body_start + body_length + 7 ≤ length buffer
  pub ten : has_prefix (b'1' ∷ b'0' ∷ b'=' ∷ []) (drop (body_start + body_length) buffer) ≡ true
  pub ends : byte_at (body_start + body_length + 6) buffer ≡ ok soh

byte_before-suc :
    (buffer : Text) (n : ℕ) → byte_before buffer (pos (n + 7)) ≡ byte_at (n + 6) buffer
unfolding byte_before
byte_before-suc buffer n = let e : n + 7 ≡ suc (n + 6) = omega arith in rw e

pub int_of-small : (n : ℕ) → n ≤ max_int → int_of n ≡ pos n
int_of-small n h = ground arith

byte_before-large :
    (buffer : Text) (n : ℕ) → max_int < n → byte_before buffer (int_of n) ≡ err panics
unfolding byte_before
byte_before-large buffer n h = ground arith

-- The cut, as tests on plain numbers.
cut_frame-small :
    (buffer : Text) (max_size : ℤ) (s n : ℕ) {frame : Text} {size : ℕ}
    → s + n + 7 ≤ max_int
    → cut_frame buffer max_size s n ≡ ok (frame, size)
    → HasFrame buffer max_size s n × (size ≡ s + n + 7) × (frame ≡ take size buffer)
unfolding cut_frame slice_from
cut_frame-small buffer max_size s n fits h =
    let whole = int_of-small (s + n + 7) fits in
    let part = int_of-small (s + n) (omega arith) in
    let last = byte_before-suc buffer (s + n) in ground (arith, whole, part, last)

cut_frame-large :
    (buffer : Text) (max_size : ℤ) (s n : ℕ) {out : Text × ℕ}
    → max_int < s + n + 7
    → cut_frame buffer max_size s n ≡ ok out
    → ⊥
unfolding cut_frame
cut_frame-large buffer max_size s n large h =
    elim (Result-cases (slice_from buffer (int_of (s + n)))) [
      | inl (e, failed) ↦ ground (arith, byte_before-large buffer (s + n + 7) large)
      | inr (tail, cut) ↦ ground (arith, byte_before-large buffer (s + n + 7) large)
    ]

cut_frame-ok :
    (buffer : Text) (max_size : ℤ) (s n : ℕ) {frame : Text} {size : ℕ}
    → cut_frame buffer max_size s n ≡ ok (frame, size)
    → HasFrame buffer max_size s n × (size ≡ s + n + 7) × (frame ≡ take size buffer)
cut_frame-ok buffer max_size s n h = elim (Bool-cases (leb (s + n + 7) max_int)) [
  | inl small ↦ cut_frame-small buffer max_size s n (leb→le _ _ small) h
  | inr large ↦ absurd (cut_frame-large buffer max_size s n (ground arith) h)
]

HasFrame-cut_frame :
    (buffer : Text) (max_size : ℤ) (s n : ℕ)
    → HasFrame buffer max_size s n
    → cut_frame buffer max_size s n ≡ ok (take (s + n + 7) buffer, s + n + 7)
unfolding cut_frame slice_from
HasFrame-cut_frame buffer max_size s n h =
    let whole = int_of-small (s + n + 7) h.fits in
    let part = int_of-small (s + n) (omega (arith, h.fits)) in
    let last = byte_before-suc buffer (s + n) in ground (arith, whole, part, last)

byte_at-more : (i : ℕ) (s t : Text) {c : ℕ} → byte_at i s ≡ ok c → byte_at i (s ++ t) ≡ ok c
unfolding byte_at
byte_at-more i [] t h = cc
byte_at-more zero (c ∷ s) t h = h
byte_at-more (suc i) (c ∷ s) t h = byte_at-more i s t h

HasFrame-more :
    (buffer more : Text) (max_size : ℤ) (s n : ℕ)
    → HasFrame buffer max_size s n
    → HasFrame (buffer ++ more) max_size s n
HasFrame-more buffer more max_size s n h = record {
  fits = h.fits;
  allowed = h.allowed;
  here = omega (arith, h.here, length-append buffer more);
  ten =
      rw (drop-append_le (s + n) buffer more (omega (arith, h.here)))
        (has_prefix-more _ (drop (s + n) buffer) more h.ten);
  ends = byte_at-more (s + n + 6) buffer more h.ends;
}

-- What the two stages of `nextFrame` find.
pub record Found (buffer : Text) (max_size : ℤ) (frame : Text) (size : ℕ) : Type 0 where
  pub body_start : ℕ
  pub body_length : ℕ
  pub eight : has_prefix (b'8' ∷ b'=' ∷ []) buffer ≡ true
  pub two : 2 ≤ length buffer
  pub head : HasHead buffer body_start body_length
  pub whole : HasFrame buffer max_size body_start body_length
  pub size_is : size ≡ body_start + body_length + 7
  pub frame_is : frame ≡ take size buffer

pub next_frame-ok :
    (buffer : Text) (max_size : ℤ) {frame : Text} {size : ℕ}
    → next_frame buffer max_size ≡ ok (frame, size)
    → Found buffer max_size frame size
unfolding next_frame
next_frame-ok buffer max_size {frame} {size} h = elim (Result-cases (read_length buffer)) [
  | inl (e, failed) ↦ absurd (ground arith)
  | inr ((s, n), read) ↦
      let cut : cut_frame buffer max_size s n ≡ ok (frame, size) = ground arith in
      let (whole, size_is, frame_is) = cut_frame-ok buffer max_size s n cut in
      record {
        body_start = s;
        body_length = n;
        eight = ground arith;
        two = ground arith;
        head = read_length-ok buffer read;
        whole = whole;
        size_is = size_is;
        frame_is = frame_is;
      }
]

Found-next_frame :
    (buffer : Text) (max_size : ℤ) {frame : Text} {size : ℕ}
    → Found buffer max_size frame size
    → next_frame buffer max_size ≡ ok (frame, size)
unfolding next_frame
Found-next_frame buffer max_size f =
    let read = HasHead-read_length buffer f.body_start f.body_length f.head in
    let cut = HasFrame-cut_frame buffer max_size f.body_start f.body_length f.whole in
    ground (arith, f.eight, f.two, read, cut, f.size_is, f.frame_is)

-- A cut frame has a byte at least, lies within the buffer and the size limit, and is cut in the
-- same way from the buffer with more bytes behind it.
pub next_frame-more :
    (buffer more : Text) (max_size : ℤ) {frame : Text} {size : ℕ}
    → next_frame buffer max_size ≡ ok (frame, size)
    → (0 < size)
      × (size ≤ length buffer)
      × (pos size ≤ℤ max_size)
      × (frame ≡ take size buffer)
      × (next_frame (buffer ++ more) max_size ≡ ok (frame, size))
next_frame-more buffer more max_size h =
    let f = next_frame-ok buffer max_size h in
    (
      omega (arith, f.size_is),
      omega (arith, f.size_is, f.whole.here),
      omega (arith, f.size_is, f.whole.allowed),
      f.frame_is,
      Found-next_frame (buffer ++ more) max_size (record {
        body_start = f.body_start;
        body_length = f.body_length;
        eight = has_prefix-more _ buffer more f.eight;
        two = omega (arith, f.two, length-append buffer more);
        head = HasHead-more buffer more f.body_start f.body_length f.head;
        whole = HasFrame-more buffer more max_size f.body_start f.body_length f.whole;
        size_is = f.size_is;
        frame_is =
            f.frame_is
            ∙ sym (take-append_le _ buffer more (omega (arith, f.size_is, f.whole.here)));
      }),
    )
