-- ===== src/Fix/Session/Backoff.antt =====
-- How long `Run` waits between two connections.
use venuewire.Prelude.{
  ℕ, suc, ◌*◌, ◌/◌, ◌^◌, ◌≤◌, ◌<◌, ◌≡◌, ap, subst, inl, inr, Bool, true, false, List, [], ◌∷◌, leb,
  ltb, if◌then◌else◌, Text, Bool-cases, Option-cases, arith,
}
use native.Mathlib.Nat.{mod-lt, pow-suc}
use venuewire.Fix.Session.Types.{Settings}
use venuewire.Fix.Session.Talks.{Outcome-cases}
use venuewire.Fix.Session.Reconnect.{
  Session, Attempt, kept, jitter, next_backoff, gives_up, run_once, run_from, run,
}

-- The wait behind the first, doubled so many times, up to the largest.
pub capped : Settings → ℕ → ℕ
capped s k =
    if ltb s.max_backoff (s.initial_backoff * 2 ^ k)
    then s.max_backoff
    else s.initial_backoff * 2 ^ k

capped-zero : (s : Settings) → s.initial_backoff ≤ s.max_backoff → capped s 0 ≡ s.initial_backoff
unfolding capped
capped-zero s h = ground arith

next_backoff-capped : (s : Settings) (k : ℕ) → next_backoff s (capped s k) ≡ capped s (suc k)
unfolding capped next_backoff
next_backoff-capped s k =
    let double : s.initial_backoff * 2 ^ suc k ≡ 2 * (s.initial_backoff * 2 ^ k) =
      omega (arith, ap (λ (t : ℕ). s.initial_backoff * t) (pow-suc 2 k)) in
    ground arith

half_pos_lem : (base : ℕ) → leb base 1 ≡ false → 0 < base / 2
half_pos_lem base h = let big : 1 < base = ground arith in omega arith

jitter-≤ : (base random : ℕ) → jitter base random ≤ base
unfolding jitter
jitter-≤ base random = elim (Bool-cases (leb base 1)) [
  | inl small ↦ rw small (omega arith)
  | inr large ↦
      let half_pos : 0 < base / 2 = omega (arith, half_pos_lem base large) in
      rw large (omega (arith, mod-lt random half_pos))
]

≤-jitter : (base random : ℕ) → base / 2 ≤ jitter base random
unfolding jitter
≤-jitter base random = elim (Bool-cases (leb base 1)) [
  | inl small ↦ rw small (omega arith)
  | inr large ↦ rw large (omega arith)
]

-- Every wait is at least half of the doubled one, and at most the whole.
pub ArePaced : Settings → ℕ → List ℕ → Type 0
ArePaced s k [] = Unit
ArePaced s k (wait ∷ waits) =
    (capped s k / 2 ≤ wait) × (wait ≤ capped s k) × ArePaced s (suc k) waits

module _ (to_lower : Text → Text) where
  run_from-ArePaced :
      (s : Settings) (k : ℕ) (again : Bool) (tries : List Attempt) (st : Session)
      → ArePaced s k (run_from to_lower s (capped s k) again tries st).0
  unfolding run_from ArePaced
  run_from-ArePaced s k again [] st = tt
  run_from-ArePaced s k again (a ∷ rest) st =
      elim (Outcome-cases (run_once to_lower s again a st)) [
        | inl (c, on) ↦ rw (on, run_from) tt
        | inr (e, c, stops) ↦ elim (Bool-cases a.cancelled) [
          | inl cancelled ↦ rw (stops, cancelled, run_from) tt
          | inr free ↦ elim (Option-cases (gives_up e)) [
            | inr (how, over) ↦ rw (stops, free, over, run_from) tt
            | inl tries ↦ elim (Bool-cases a.interrupted) [
              | inl halted ↦
                  rw (stops, free, tries, halted, run_from)
                    (≤-jitter (capped s k) a.random, jitter-≤ (capped s k) a.random, tt)
              | inr waited ↦
                  rw (stops, free, tries, waited, next_backoff-capped s k, run_from)
                    (
                      ≤-jitter (capped s k) a.random,
                      jitter-≤ (capped s k) a.random,
                      run_from-ArePaced s (suc k) true rest (kept c),
                    )
            ]
          ]
        ]
      ]

  -- Where the first wait is within the largest, the waits between connections double from the first
  -- on up to the largest, and the random number takes at most half of a wait away.
  pub run-ArePaced :
      (s : Settings) (attempts : List Attempt) (st : Session)
      → s.initial_backoff ≤ s.max_backoff
      → ArePaced s 0 (run to_lower s attempts st).0
  unfolding run
  run-ArePaced s attempts st h =
      subst (λ (b : ℕ). ArePaced s 0 (run_from to_lower s b false attempts st).0) (capped-zero s h)
        (run_from-ArePaced s 0 false attempts st)
