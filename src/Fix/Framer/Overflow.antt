-- ===== src/Fix/Framer/Overflow.antt =====
-- A declared body length near 2 ^ 63 wraps around.
use venuewire.Prelude.{ℕ, ◌+◌, ◌^◌, ◌≤◌, ◌<◌, ◌≡◌, true, [], ◌∷◌, arith, length, Text, ok, err}
use venuewire.Prelude.Int.{ℤ, pos, ◌≤ℤ◌}
use venuewire.Fix.Decimal.{max_int}
use venuewire.Fix.Bytes.{has_prefix}
use venuewire.Fix.Framer.{panics, slice_from, read_length, cut_frame, next_frame}

cut_frame_overflow :
    (buffer : Text) (max_size : ℤ) (s n : ℕ)
    → length buffer + 7 ≤ max_int
    → s + n + 7 < 2 ^ 64
    → max_int < s + n + 7
    → pos 0 ≤ℤ max_size
    → cut_frame buffer max_size s n ≡ err panics
unfolding cut_frame slice_from
cut_frame_overflow buffer max_size s n short word large positive = ground arith

-- A buffer that begins with `8=`, whose declared body length is an `int` but passes the largest
-- `int` once the head and the trailer are added, makes `nextFrame` panic: the sum wraps to a
-- negative number, passes both size tests, and a slice is taken out of range.
pub next_frame_overflow :
    (buffer : Text) (max_size : ℤ) (s n : ℕ)
    → has_prefix (b'8' ∷ b'=' ∷ []) buffer ≡ true
    → 2 ≤ length buffer
    → read_length buffer ≡ ok (s, n)
    → length buffer + 7 ≤ max_int
    → s + n + 7 < 2 ^ 64
    → max_int < s + n + 7
    → pos 0 ≤ℤ max_size
    → next_frame buffer max_size ≡ err panics
unfolding next_frame
next_frame_overflow buffer max_size s n eight two read short word large positive =
    ground (arith, cut_frame_overflow buffer max_size s n)
