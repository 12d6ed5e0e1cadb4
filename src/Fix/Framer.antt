-- ===== src/Fix/Framer.antt =====
-- `Framer` of internal/fix/framer.go: it cuts frames from a stream of bytes.
pub mod Next
pub mod Stream
pub mod Overflow
use venuewire.Prelude.{
  ℕ, zero, suc, ◌+◌, ◌-◌, ◌^◌, Bool, true, false, not, Option, none, some, List, [], ◌∷◌, ◌++◌, leb,
  ltb, ◌==◌, if◌then◌else◌, length, take, drop, Text, Result, ok, err, ◌>>=◌, ◌>>◌, refuse_if,
  or_err,
}
use venuewire.Prelude.Int.{ℤ, pos, negsuc, leb_ℤ, ltb_ℤ}
use venuewire.Fix.Decimal.{atoi, max_int}
use venuewire.Fix.Bytes.{soh, index_byte, has_prefix}
use venuewire.Fix.Codec.{natural}

pub data FramerError : Type 0 where
  not_begin_string not_body_length bad_body_length too_large : FramerError

-- Why no frame was cut: more bytes are needed, the bytes are refused, or a slice or an index is out
-- of range, which is a panic.
pub data Stop : Type 0 where
  incomplete panics : Stop
  refused : FramerError → Stop

-- A sum below 2 ^ 64, as Go's signed `int` holds it.
abbrev pub int_of : ℕ → ℤ
int_of n = if leb n max_int then pos n else negsuc (2 ^ 64 - 1 - n)

-- `buffer[i:]`.
unfoldable pub slice_from : Text → ℤ → Result Stop Text
slice_from buffer (pos i) = if leb i (length buffer) then ok (drop i buffer) else err panics
slice_from buffer (negsuc i) = err panics

unfoldable pub byte_at : ℕ → Text → Result Stop ℕ
byte_at i [] = err panics
byte_at zero (c ∷ s) = ok c
byte_at (suc i) (c ∷ s) = byte_at i s

-- `buffer[end-1]`.
unfoldable pub byte_before : Text → ℤ → Result Stop ℕ
unfolding byte_at
byte_before buffer (pos (suc i)) = byte_at i buffer
byte_before buffer _ = err panics

abbrev nat_part : ℤ → ℕ
nat_part (pos n) = n
nat_part (negsuc _) = 0

-- Where the body starts, and its declared length.
unfoldable pub read_length : Text → Result Stop (ℕ × ℕ)
read_length buffer = do
  first_end ← or_err (index_byte soh buffer) incomplete
  second ← or_err (index_byte soh (drop (suc first_end) buffer)) incomplete
  let field = take second (drop (suc first_end) buffer)
  refuse_if (not (has_prefix (b'9' ∷ b'=' ∷ []) field)) (refused not_body_length)
  body_length ← or_err (natural (atoi (drop 2 field))) (refused bad_body_length)
  ok (first_end + 1 + second + 1, body_length)

-- The trailer of 7 bytes behind the body: `10=`, three digits and the delimiter.
unfoldable pub cut_frame : Text → ℤ → ℕ → ℕ → Result Stop (Text × ℕ)
cut_frame buffer max_size body_start body_length = do
  let sum_start = int_of (body_start + body_length)
  let frame_end = int_of (body_start + body_length + 7)
  refuse_if (ltb_ℤ max_size frame_end) (refused too_large)
  refuse_if (ltb_ℤ (pos (length buffer)) frame_end) incomplete
  tail ← slice_from buffer sum_start
  refuse_if (not (has_prefix (b'1' ∷ b'0' ∷ b'=' ∷ []) tail)) (refused bad_body_length)
  last ← byte_before buffer frame_end
  refuse_if (not (last == soh)) (refused bad_body_length)
  ok (take (nat_part frame_end) buffer, nat_part frame_end)

-- `nextFrame`: the frame and the bytes that it consumed.
unfoldable pub next_frame : Text → ℤ → Result Stop (Text × ℕ)
next_frame buffer max_size = do
  refuse_if (ltb (length buffer) 2) incomplete
  refuse_if (not (has_prefix (b'8' ∷ b'=' ∷ []) buffer)) (refused not_begin_string)
  (body_start, body_length) ← read_length buffer
  cut_frame buffer max_size body_start body_length

pub record Framer : Type 0 where
  pub buffer : Text
  pub max_size : ℤ

-- How `Feed` ends; `no_fuel` is shown never to occur.
pub data Ended : Type 0 where
  waits no_fuel panicked : Ended
  failed : FramerError → Ended

pub record Fed : Type 0 where
  pub frames : List Text
  pub buffer : Text
  pub ended : Ended

-- The frame that was cut stands in front of those behind it.
abbrev pub with_frame : Text → Fed → Fed
with_frame frame r = record r { frames = frame ∷ r.frames }

abbrev stopped : Text → ℤ → Stop → Fed
stopped buffer max_size incomplete = record {
  frames = [];
  buffer = buffer;
  ended = if ltb_ℤ max_size (pos (length buffer)) then failed too_large else waits;
}
stopped buffer max_size panics = record { frames = []; buffer = buffer; ended = panicked }
stopped buffer max_size (refused e) = record { frames = []; buffer = buffer; ended = failed e }

-- The `for` loop of `Feed`.
unfoldable pub feed_loop : ℕ → ℤ → Text → Fed
feed_loop zero max_size buffer = record { frames = []; buffer = buffer; ended = no_fuel }
feed_loop (suc fuel) max_size buffer = elim (next_frame buffer max_size) [
  | err why ↦ stopped buffer max_size why
  | ok (frame, consumed) ↦ with_frame frame (feed_loop fuel max_size (drop consumed buffer))
]

abbrev pub default_size : ℤ → ℤ
default_size max_size = if leb_ℤ max_size (pos 0) then pos (2 ^ 20) else max_size

-- Every frame takes a byte at least, so the bytes at hand bound the rounds.
unfoldable pub feed : Framer → Text → Framer × (List Text × Ended)
feed f bytes =
    let max_size = default_size f.max_size in
    let buffer = f.buffer ++ bytes in
    let r = feed_loop (suc (length buffer)) max_size buffer in
    (record { buffer = r.buffer; max_size = max_size }, (r.frames, r.ended))

-- `Buffered`.
unfoldable pub buffered : Framer → ℕ
buffered f = length f.buffer
