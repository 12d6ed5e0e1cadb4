-- ===== src/QuickTrade/Quote/Numbers/Estimate.antt =====
-- What the estimate of an order promises.
use venuewire.Prelude.{◌≡◌, refl, List, [], ◌∷◌, inl, inr, ◌==◌, Bool-cases, arith}
use venuewire.Prelude.Ratio.{
  Ratio, whole, leb_ratio, ◌≤R◌, mul, add, sub, min_ratio, ≤R_refl, ≤R_trans, mul-≤R_right, add-≤R,
  take-≤R,
}
use venuewire.QuickTrade.Quote.Types.{Side, buy, sell, Level, Book}
use venuewire.QuickTrade.Quote.Numbers.{is_beyond, received_at, walk, executable_estimate}

min_ratio-≤R : (a b : Ratio) → min_ratio a b ≤R a
min_ratio-≤R a b = elim (Bool-cases (leb_ratio a b)) [
  | inl less ↦ rw less (≤R_refl a)
  | inr more ↦ rw more (ground arith)
]

≤R-add : (a b : Ratio) → a ≤R add a b
unfolding add
≤R-add a b = omega arith

-- The loop fills no more than what remains.
walk-≤R :
    (side : Side) (limit remaining filled received : Ratio) (ls : List Level)
    → (walk side limit remaining filled received ls).0 ≤R add filled remaining
unfolding walk
walk-≤R side limit remaining filled received [] = ≤R-add filled remaining
walk-≤R side limit remaining filled received (l ∷ ls) =
    let taken = min_ratio remaining l.quantity in
    let filled' = add filled taken in
    let remaining' = sub remaining taken in
    let kept = take-≤R filled taken remaining (min_ratio-≤R remaining l.quantity) in
    elim (Bool-cases (is_beyond side l.price limit)) [
      | inl beyond ↦ rw (beyond, walk) (≤R-add filled remaining)
      | inr within ↦ elim (Bool-cases (remaining'.num == 0)) [
        | inl done ↦
            rw (within, done, walk)
              (≤R_trans filled' (add filled' remaining') (add filled remaining)
                (≤R-add filled' remaining') kept)
        | inr more ↦
            rw (within, more, walk)
              (≤R_trans
                (walk side limit remaining' filled' (received_at side received taken l.price) ls).0
                (add filled' remaining') (add filled remaining)
                (walk-≤R side limit remaining' filled' (received_at side received taken l.price) ls)
                kept)
      ]
    ]

mul-add-≤R : (f t l : Ratio) → mul (add f t) l ≤R add (mul f l) (mul t l)
unfolding mul add
mul-add-≤R f t l = omega arith

-- A seller's fill adds at least its worth at the limit.
fill-≤R :
    (limit filled received taken price : Ratio)
    → mul filled limit ≤R received
    → limit ≤R price
    → mul (add filled taken) limit ≤R add received (mul taken price)
fill-≤R limit filled received taken price h p =
    ≤R_trans (mul (add filled taken) limit) (add (mul filled limit) (mul taken limit))
      (add received (mul taken price)) (mul-add-≤R filled taken limit)
      (add-≤R (mul filled limit) received (mul taken limit) (mul taken price) h
        (mul-≤R_right limit price taken p))

walk-sell :
    (limit remaining filled received : Ratio) (ls : List Level)
    → mul filled limit ≤R received
    → mul (walk sell limit remaining filled received ls).0 limit
      ≤R (walk sell limit remaining filled received ls).1
unfolding walk
walk-sell limit remaining filled received [] h = h
walk-sell limit remaining filled received (l ∷ ls) h =
    let taken = min_ratio remaining l.quantity in
    let remaining' = sub remaining taken in
    let received' = add received (mul taken l.price) in
    elim (Bool-cases (is_beyond sell l.price limit)) [
      | inl beyond ↦ rw (beyond, walk) h
      | inr within ↦
          let price : limit ≤R l.price = ground arith in
          let grown = fill-≤R limit filled received taken l.price h price in
          elim (Bool-cases (remaining'.num == 0)) [
            | inl done ↦ rw (within, done, walk) grown
            | inr more ↦
                rw (within, more, walk)
                  (walk-sell limit remaining' (add filled taken) received' ls grown)
          ]
    ]

add-zero-≤R : (a : Ratio) → add (whole 0) a ≤R a
unfolding add whole
add-zero-≤R a = omega arith

mul-zero-≤R : (a : Ratio) → mul (whole 0) a ≤R whole 0
unfolding mul whole
mul-zero-≤R a = omega arith

-- What an estimate may say: no more is filled than was asked for, a buyer receives what is filled,
-- and a seller at least its worth at the limit price.
abbrev pub IsModest : Side → Ratio → Ratio → Ratio × Ratio → Type 0
IsModest buy requested limit out = (out.0 ≤R requested) × (out.1 ≡ out.0)
IsModest sell requested limit out = (out.0 ≤R requested) × (mul out.0 limit ≤R out.1)

walk_start :
    (side : Side) (requested limit : Ratio) (ls : List Level)
    → (walk side limit requested (whole 0) (whole 0) ls).0 ≤R requested
walk_start side requested limit ls =
    ≤R_trans (walk side limit requested (whole 0) (whole 0) ls).0 (add (whole 0) requested)
      requested (walk-≤R side limit requested (whole 0) (whole 0) ls) (add-zero-≤R requested)

-- For any book, the estimate of an order fills no more than was asked for; it gives a buyer what is
-- filled, and a seller at least its worth at the limit price.
pub executable_estimate-IsModest :
    (side : Side) (requested limit : Ratio) (book : Book)
    → IsModest side requested limit (executable_estimate side requested limit book)
unfolding executable_estimate
executable_estimate-IsModest buy requested limit book =
    (walk_start buy requested limit book.asks, refl)
executable_estimate-IsModest sell requested limit book = (
  walk_start sell requested limit book.bids,
  walk-sell limit requested (whole 0) (whole 0) book.bids (mul-zero-≤R limit),
)
