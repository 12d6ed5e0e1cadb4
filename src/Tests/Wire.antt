-- ===== src/Tests/Wire.antt =====
-- FIX messages and the framer on short texts.
use venuewire.Prelude.{
  ◌≡◌, ◌≤◌, ◌<◌, ◌⊎◌, refl, true, some, List, [], ◌∷◌, ◌++◌, length, take, Text, codes, is_empty,
  if◌then◌else◌, ◌==◌, ok, err, arith,
}
use venuewire.Prelude.Int.{pos, ◌≤ℤ◌}
use venuewire.Fix.Decimal.{atoi, print_nat, print_int, max_int, digits_value}
use venuewire.Fix.Decimal.RoundTrip.{atoi-print_nat}
use venuewire.Fix.Bytes.{soh, index_byte, has_prefix}
use venuewire.Fix.Codec.{
  Field, Message, check_sum, encode, encode_body, frame, header, trailer, default_begin,
  parse_strict,
}
use venuewire.Fix.Codec.RoundTrip.{parse_strict-encode}
use venuewire.Fix.Framer.{
  Framer, next_frame, feed, feed_loop, read_length, cut_frame, slice_from, byte_before, panics,
  FramerError, waits, failed, panicked,
}
use venuewire.Fix.Framer.Next.{next_frame-more}
use venuewire.Fix.Framer.Stream.{feed-append, feed_ends}
use venuewire.Fix.Framer.Overflow.{next_frame_overflow}

atoi-print_nat_example : atoi (print_nat 42) ≡ some (pos 42)
atoi-print_nat_example = atoi-print_nat 42 (omega arith)

abbrev fields : List Field
fields =
    record { tag = pos 35; value = codes "0" } ∷ record { tag = pos 49; value = codes "ME" } ∷ []

-- `|` for the delimiter.
abbrev pub wire : Text → Text
wire [] = []
wire (c ∷ s) = (if c == b'|' then soh else c) ∷ wire s

abbrev heartbeat : Text
heartbeat = wire (codes "8=FIX.4.4|9=11|35=0|49=ME|10=013|")

encodes : encode [] fields ≡ ok heartbeat
unfolding encode encode_body index_byte print_int print_nat frame header trailer check_sum is_empty
encodes = refl

parse_strict-encode_example :
    (m : Message) × (parse_strict heartbeat ≡ ok m)
    × (m.begin_string ≡ default_begin [])
    × (m.fields ≡ fields)
    × (m.raw ≡ heartbeat)
parse_strict-encode_example =
    parse_strict-encode [] fields encodes tt (λ n h. ground arith, (λ n h. ground arith, tt))
      (omega arith)

abbrev empty_framer : Framer
empty_framer = record { buffer = []; max_size = pos 0 }

-- The frame arrives in two pieces.
abbrev piece : Text
piece = wire (codes "8=FIX.4.4|9=11|35")

abbrev piece' : Text
piece' = wire (codes "=0|49=ME|10=013|8=")

piece_waits : (feed empty_framer piece).1.1 ≡ waits
unfolding feed feed_loop next_frame read_length cut_frame index_byte has_prefix atoi digits_value
piece_waits = refl

feed-append_example : feed empty_framer (piece ++ piece') ≡ (
  (feed (feed empty_framer piece).0 piece').0,
  (
    (feed empty_framer piece).1.0 ++ (feed (feed empty_framer piece).0 piece').1.0,
    (feed (feed empty_framer piece).0 piece').1.1,
  ),
)
feed-append_example = feed-append empty_framer piece piece' piece_waits

feed_ends_example :
    ((feed empty_framer piece).1.1 ≡ waits)
    ⊎ (((e : FramerError) × ((feed empty_framer piece).1.1 ≡ failed e))
        ⊎ ((feed empty_framer piece).1.1 ≡ panicked))
feed_ends_example = feed_ends empty_framer piece

cuts : next_frame heartbeat (pos 64) ≡ ok (heartbeat, 33)
unfolding next_frame read_length cut_frame slice_from byte_before index_byte has_prefix atoi
    digits_value
cuts = refl

next_frame-more_example :
    (0 < 33)
    × (33 ≤ length heartbeat)
    × (pos 33 ≤ℤ pos 64)
    × (heartbeat ≡ take 33 heartbeat)
    × (next_frame (heartbeat ++ piece) (pos 64) ≡ ok (heartbeat, 33))
next_frame-more_example = next_frame-more heartbeat piece (pos 64) cuts

abbrev huge : Text
huge = wire (codes "8=|9=9223372036854775807|")

huge_read : read_length huge ≡ ok (25, max_int)
unfolding read_length index_byte has_prefix atoi digits_value
huge_read = refl

huge_begins : has_prefix (b'8' ∷ b'=' ∷ []) huge ≡ true
unfolding has_prefix
huge_begins = refl

next_frame_overflow_example : next_frame huge (pos 64) ≡ err panics
next_frame_overflow_example =
    next_frame_overflow huge (pos 64) 25 max_int huge_begins (omega arith) huge_read (omega arith)
      (omega arith) (omega arith) (omega arith)
