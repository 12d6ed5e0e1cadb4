-- ===== src/Deribit/Book.antt =====
-- The order book that is kept from Deribit's stream: internal/deribit/book.go.
pub mod Levels
pub mod Sync
use venuewire.Prelude.{
  ℕ, zero, suc, Bool, true, false, not, ◌&&◌, ◌||◌, Option, none, some, List, [], ◌∷◌,
  if◌then◌else◌, Text, same, codes, Eq, ◌≡◌, ◌⊎◌,
}
use venuewire.Prelude.Int.{ℤ, pos, eqb_ℤ, leb_ℤ}
use venuewire.Prelude.Map.{Map, insert, erase}

-- The `float64` values that JSON numbers decode to, which are never NaN: equality and a total order.
pub record Floats : Type 1 where
  pub Float : Type 0
  pub float_eq : Eq Float
  pub zero_float : Float
  pub lt : Float → Float → Bool
  pub lt_trans : (a b c : Float) → lt a b ≡ true → lt b c ≡ true → lt a c ≡ true
  pub lt_total : (a b : Float) → (a ≡ b) ⊎ (lt a b ≡ true) ⊎ (lt b a ≡ true)

pub data BookError : Type 0 where
  instrument_mismatch unknown_type needs_snapshot sequence_gap : BookError
  malformed_level malformed_action malformed_price malformed_amount unknown_action : BookError

module _ (num : Floats) where
  open num use {Float, float_eq, zero_float, lt}

  -- A value of `any` that JSON decoding makes.
  pub data Json : Type 0 where
    text : Text → Json
    number : Float → Json
    other : Json

  pub record BookUpdate : Type 0 where
    pub kind : Text
    pub instrument_name : Text
    pub change_id : ℤ
    pub prev_change_id : ℤ
    pub timestamp : ℤ
    pub bids : List (List Json)
    pub asks : List (List Json)

  pub record OrderBook : Type 0 where
    pub instrument : Text
    pub change_id : ℤ
    pub stale : Bool
    pub bids : Map Float Float
    pub asks : Map Float Float

  unfoldable pub new_order_book : Text → OrderBook
  new_order_book instrument = record {
    instrument = instrument;
    change_id = pos 0;
    stale = true;
    bids = [];
    asks = [];
  }

  -- One level, as the change that it makes: `none` deletes the price.
  pub record Change : Type 0 where
    pub price : Float
    pub amount : Option Float

  pub data Read : Type 0 where
    change : Change → Read
    bad : BookError → Read

  -- The `switch` on the action.
  read_action : Text → Float → Float → Read
  read_action action price amount =
      if same action (codes "new") || same action (codes "change")
      then change (record {
        price = price;
        amount = if float_eq.beq amount zero_float then none else some amount;
      })
      else if same action (codes "delete")
      then change (record { price = price; amount = none })
      else bad unknown_action

  abbrev pub float_of : Json → Option Float
  float_of (number x) = some x
  float_of _ = none

  read_amount : Text → Float → Option Float → Read
  unfolding read_action
  read_amount action price none = bad malformed_amount
  read_amount action price (some amount) =
      if lt amount zero_float then bad malformed_amount else read_action action price amount

  read_price : Text → Option Float → Option Float → Read
  unfolding read_amount
  read_price action none amount = bad malformed_price
  read_price action (some price) amount =
      if not (lt zero_float price) then bad malformed_price else read_amount action price amount

  -- One element of the list of levels.
  unfoldable pub read_level : List Json → Read
  unfolding read_price
  read_level (text action ∷ price ∷ amount ∷ []) =
      read_price action (float_of price) (float_of amount)
  read_level (_ ∷ _ ∷ _ ∷ []) = bad malformed_action
  read_level _ = bad malformed_level

  abbrev pub change_side : Change → Map Float Float → Map Float Float
  change_side c side = elim c.amount [
    | none ↦ erase ⦃e = float_eq⦄ c.price side
    | some a ↦ insert ⦃e = float_eq⦄ c.price a side
  ]

  -- `applyLevels`: the levels before a bad one have been applied to the map.
  unfoldable pub apply_levels :
      Map Float Float → List (List Json) → Map Float Float × Option BookError
  unfolding read_level
  apply_levels side [] = (side, none)
  apply_levels side (raw ∷ levels) = elim (read_level raw) [
    | bad e ↦ (side, some e)
    | change c ↦ apply_levels (change_side c side) levels
  ]

  -- Both sides, and the change ID where neither fails.
  unfoldable pub apply_sides : OrderBook → BookUpdate → OrderBook × Option BookError
  unfolding apply_levels
  apply_sides b u =
      let (bids, failed) = apply_levels b.bids u.bids in
      let (asks, failed') = apply_levels b.asks u.asks in
      elim failed [
        | some e ↦ (record b { bids = bids; stale = true }, some e)
        | none ↦ elim failed' [
          | some e ↦ (record b { bids = bids; asks = asks; stale = true }, some e)
          | none ↦
              (record b { bids = bids; asks = asks; change_id = u.change_id; stale = false }, none)
        ]
      ]

  -- `case "change"`, on a book that is not stale.
  unfoldable pub apply_change : OrderBook → BookUpdate → OrderBook × Option BookError
  unfolding apply_sides
  apply_change b u =
      if eqb_ℤ u.change_id b.change_id
      then (b, none)
      else if not (eqb_ℤ u.prev_change_id b.change_id) || leb_ℤ u.change_id b.change_id
      then (record b { stale = true }, some sequence_gap)
      else apply_sides b u

  -- `Apply`. A change reaches the last step only on a book that is not stale, so that setting
  -- `stale = false` there, as a snapshot does, changes nothing.
  unfoldable pub apply : OrderBook → BookUpdate → OrderBook × Option BookError
  unfolding apply_change
  apply b u =
      if not (same u.instrument_name b.instrument)
      then (b, some instrument_mismatch)
      else if same u.kind (codes "snapshot")
      then apply_sides (record b { bids = []; asks = [] }) u
      else if not (same u.kind (codes "change"))
      then (record b { stale = true }, some unknown_type)
      else if b.stale
      then (b, some needs_snapshot)
      else apply_change b u

  unfoldable pub apply_all : OrderBook → List BookUpdate → OrderBook
  apply_all b [] = b
  apply_all b (u ∷ us) = apply_all (apply b u).0 us
