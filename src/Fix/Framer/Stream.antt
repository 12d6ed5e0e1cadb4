-- ===== src/Fix/Framer/Stream.antt =====
-- How the stream is cut does not depend on how it arrives.
use venuewire.Prelude.{
  ℕ, zero, suc, ◌≤◌, ◌<◌, ◌≡◌, ◌≢◌, ◌⊎◌, refl, ap, sym, ◌∙◌, inl, inr, List, [], ◌++◌, append_assoc,
  arith, length, length-append, length-drop, drop, drop-append_le, Text, ok, err, Result-cases,
}
use venuewire.Prelude.Int.{ℤ}
use venuewire.Fix.Framer.{
  Stop, Framer, Ended, waits, no_fuel, panicked, failed, FramerError, Fed, with_frame, next_frame,
  feed_loop, feed, default_size, stopped,
}
use venuewire.Fix.Framer.Next.{next_frame-more}

-- Frames that were cut before.
abbrev pub onto : List Text → Fed → Fed
onto fs r = record r { frames = fs ++ r.frames }

shorter :
    (buffer : Text) (max_size : ℤ) (frame : Text) (size : ℕ)
    → next_frame buffer max_size ≡ ok (frame, size)
    → length (drop size buffer) < length buffer
shorter buffer max_size frame size h =
    let (positive, within, _, _, _) = next_frame-more buffer [] max_size h in
    omega (arith, length-drop size buffer)

loop_stop :
    (f : ℕ) (max_size : ℤ) (buffer : Text) (e : Stop)
    → next_frame buffer max_size ≡ err e
    → feed_loop (suc f) max_size buffer ≡ stopped buffer max_size e
unfolding feed_loop
loop_stop f max_size buffer e h = rw (h, feed_loop)

loop_cut :
    (f : ℕ) (max_size : ℤ) (buffer frame : Text) (size : ℕ)
    → next_frame buffer max_size ≡ ok (frame, size)
    → feed_loop (suc f) max_size buffer ≡ with_frame frame (feed_loop f max_size (drop size buffer))
unfolding feed_loop
loop_cut f max_size buffer frame size h = rw (h, feed_loop)

-- Any fuel above the length of the buffer gives the same.
pub feed_loop_stable :
    (f f' : ℕ) (max_size : ℤ) (buffer : Text)
    → length buffer < f
    → length buffer < f'
    → feed_loop f max_size buffer ≡ feed_loop f' max_size buffer
feed_loop_stable zero f' max_size buffer h h' = elim h [ ]
feed_loop_stable (suc f) zero max_size buffer h h' = elim h' [ ]
feed_loop_stable (suc f) (suc f') max_size buffer h h' =
    elim (Result-cases (next_frame buffer max_size)) [
      | inl (e, stop) ↦
          loop_stop f max_size buffer e stop ∙ sym (loop_stop f' max_size buffer e stop)
      | inr ((frame, size), cut) ↦
          let less = shorter buffer max_size frame size cut in
          loop_cut f max_size buffer frame size cut
          ∙ ap (with_frame frame)
              (feed_loop_stable f f' max_size (drop size buffer) (omega arith) (omega arith))
          ∙ sym (loop_cut f' max_size buffer frame size cut)
    ]

stopped-ended :
    (buffer : Text) (max_size : ℤ) (e : Stop) → (stopped buffer max_size e).ended ≢ no_fuel
stopped-ended buffer max_size e = ground arith

pub feed_loop_ends :
    (f : ℕ) (max_size : ℤ) (buffer : Text)
    → length buffer < f
    → (feed_loop f max_size buffer).ended ≢ no_fuel
feed_loop_ends zero max_size buffer h = elim h [ ]
feed_loop_ends (suc f) max_size buffer h = elim (Result-cases (next_frame buffer max_size)) [
  | inl (e, stop) ↦ rw (loop_stop f max_size buffer e stop) (stopped-ended buffer max_size e)
  | inr ((frame, size), cut) ↦
      let less = shorter buffer max_size frame size cut in
      rw (loop_cut f max_size buffer frame size cut)
        (feed_loop_ends f max_size (drop size buffer) (omega arith))
]

loop_zero :
    (max_size : ℤ) (buffer : Text) → length (feed_loop zero max_size buffer).buffer ≤ length buffer
unfolding feed_loop
loop_zero max_size buffer = omega arith

feed_loop-buffer_le :
    (f : ℕ) (max_size : ℤ) (buffer : Text)
    → length (feed_loop f max_size buffer).buffer ≤ length buffer
feed_loop-buffer_le zero max_size buffer = loop_zero max_size buffer
feed_loop-buffer_le (suc f) max_size buffer = elim (Result-cases (next_frame buffer max_size)) [
  | inl (e, stop) ↦ rw (loop_stop f max_size buffer e stop) (ground arith)
  | inr ((frame, size), cut) ↦
      let less = shorter buffer max_size frame size cut in
      rw (loop_cut f max_size buffer frame size cut)
        (omega (arith, feed_loop-buffer_le f max_size (drop size buffer)))
]

stopped-waits :
    (buffer : Text) (max_size : ℤ) (e : Stop)
    → (stopped buffer max_size e).ended ≡ waits
    → stopped buffer max_size e ≡ record { frames = []; buffer = buffer; ended = waits }
stopped-waits buffer max_size e h = ground arith

no_fuel-zero : (max_size : ℤ) (a : Text) → (feed_loop zero max_size a).ended ≡ waits → ⊥
unfolding feed_loop
no_fuel-zero max_size a h = cc

rest_lt :
    (f n : ℕ) (max_size : ℤ) (a b : Text)
    → length (a ++ b) < n
    → length ((feed_loop f max_size a).buffer ++ b) < n
rest_lt f n max_size a b h = omega (
  arith,
  feed_loop-buffer_le f max_size a,
  length-append a b,
  length-append (feed_loop f max_size a).buffer b,
)

-- What is left after the frames of `a`, with `b` behind it, is cut as `a` and `b` together are.
feed_loop-append :
    (f f' : ℕ) (max_size : ℤ) (a b : Text)
    → length (a ++ b) < f'
    → (feed_loop f max_size a).ended ≡ waits
    → let r = feed_loop f max_size a in
      feed_loop f' max_size (a ++ b) ≡ onto r.frames (feed_loop f' max_size (r.buffer ++ b))
feed_loop-append zero f' max_size a b h' w = absurd (no_fuel-zero max_size a w)
feed_loop-append (suc f) zero max_size a b h' w = elim h' [ ]
feed_loop-append (suc f) (suc f') max_size a b h' w = elim (Result-cases (next_frame a max_size)) [
  | inl (e, stop) ↦
      let here = loop_stop f max_size a e stop in
      let still = here ∙ stopped-waits a max_size e (rw here at w) in rw still refl
  | inr ((frame, size), cut) ↦
      let here = loop_cut f max_size a frame size cut in
      let (_, within, _, _, again) = next_frame-more a b max_size cut in
      let less = shorter a max_size frame size cut in
      let fewer : length (drop size a ++ b) < f' =
        omega (arith, length-append a b, length-append (drop size a) b) in
      rw here (
        loop_cut f' max_size (a ++ b) frame size again
        ∙ ap (with_frame frame) (
            ap (feed_loop f' max_size) (drop-append_le size a b within)
            ∙ feed_loop-append f f' max_size (drop size a) b fewer (rw here at w)
            ∙ ap (onto (feed_loop f max_size (drop size a)).frames) (
                feed_loop_stable f' (suc f') max_size _
                  (rest_lt f f' max_size (drop size a) b fewer)
                  (rest_lt f (suc f') max_size (drop size a) b (omega arith)))))
]

default_size_idem : (max_size : ℤ) → default_size (default_size max_size) ≡ default_size max_size
default_size_idem max_size = ground arith

pack : ℤ → Fed → Framer × (List Text × Ended)
pack max_size r = (record { buffer = r.buffer; max_size = max_size }, (r.frames, r.ended))

loop_pieces :
    (max_size : ℤ) (c a b : Text)
    → (feed_loop (suc (length (c ++ a))) max_size (c ++ a)).ended ≡ waits
    → let r = feed_loop (suc (length (c ++ a))) max_size (c ++ a) in
      feed_loop (suc (length (c ++ (a ++ b)))) max_size (c ++ (a ++ b))
      ≡ onto r.frames (feed_loop (suc (length (r.buffer ++ b))) max_size (r.buffer ++ b))
loop_pieces max_size c a b w =
    let r = feed_loop (suc (length (c ++ a))) max_size (c ++ a) in
    ap (λ z. feed_loop (suc (length z)) max_size z) (sym (append_assoc c a b))
    ∙ feed_loop-append (suc (length (c ++ a))) (suc (length ((c ++ a) ++ b))) max_size (c ++ a) b
        (omega arith) w
    ∙ ap (onto r.frames) (
        feed_loop_stable (suc (length ((c ++ a) ++ b))) (suc (length (r.buffer ++ b))) max_size
          (r.buffer ++ b) (rest_lt (suc (length (c ++ a))) _ max_size (c ++ a) b (omega arith))
          (omega arith))

-- Bytes that arrive in two pieces are cut as if they had come at once: the frames, the buffer and
-- the error are the same, where the first piece is fed without an error.
pub feed-append :
    (f : Framer) (a b : Text)
    → (feed f a).1.1 ≡ waits
    → let (f1, (frames, _)) = feed f a in
      let (f2, (frames', ended)) = feed f1 b in feed f (a ++ b) ≡ (f2, (frames ++ frames', ended))
unfolding feed pack
feed-append f a b w =
    rw (default_size_idem f.max_size)
      (ap (pack (default_size f.max_size)) (loop_pieces (default_size f.max_size) f.buffer a b w))

ended_cases :
    (ended : Ended)
    → ended ≢ no_fuel
    → (ended ≡ waits) ⊎ (((e : FramerError) × (ended ≡ failed e)) ⊎ (ended ≡ panicked))
ended_cases waits h = inl refl
ended_cases no_fuel h = absurd (h refl)
ended_cases panicked h = inr (inr refl)
ended_cases (failed e) h = inr (inl (e, refl))

-- The rounds of the loop of `Feed` are always enough: it ends by waiting for more bytes, by an error,
-- or by a panic, never for want of rounds.
pub feed_ends :
    (f : Framer) (a : Text)
    → let ended = (feed f a).1.1 in
      (ended ≡ waits) ⊎ (((e : FramerError) × (ended ≡ failed e)) ⊎ (ended ≡ panicked))
unfolding feed
feed_ends f a =
    ended_cases _ (feed_loop_ends _ (default_size f.max_size) (f.buffer ++ a) (omega arith))
