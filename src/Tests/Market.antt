-- ===== src/Tests/Market.antt =====
-- The order book with natural numbers for prices and amounts.
use venuewire.Prelude.{
  ℕ, ◌≡◌, ◌⊎◌, refl, true, false, List, [], ◌∷◌, ltb, nat_eq, same, Text, codes, arith,
}
use venuewire.Prelude.Int.{pos}
use venuewire.Prelude.Map.{lookup, insert, erase}
use venuewire.Deribit.Book.{
  Floats, Json, BookUpdate, new_order_book, apply_levels, read_level, apply_sides, apply_change,
  apply, apply_all,
}
use venuewire.Deribit.Book.Levels.{
  IsPositive, apply_levels-IsPositive, last_said, or_before, lookup-apply_levels,
}
use venuewire.Deribit.Book.Sync.{InSync, apply_all-InSync}

ltb_trans : (a b c : ℕ) → ltb a b ≡ true → ltb b c ≡ true → ltb a c ≡ true
ltb_trans a b c h h' = ground arith

ltb_total : (a b : ℕ) → (a ≡ b) ⊎ (ltb a b ≡ true) ⊎ (ltb b a ≡ true)
ltb_total a b = ground arith

abbrev naturals : Floats
naturals = record {
  Float = ℕ;
  float_eq = nat_eq;
  zero_float = 0;
  lt = ltb;
  lt_trans = ltb_trans;
  lt_total = ltb_total;
}

abbrev level : Text → ℕ → ℕ → List (Json naturals)
level action price amount = Json.text action ∷ Json.number price ∷ Json.number amount ∷ []

abbrev levels : List (List (Json naturals))
levels =
    level (codes "new") 5 2
    ∷ level (codes "new") 6 1
    ∷ level (codes "delete") 5 0
    ∷ level (codes "odd") 7 1
    ∷ []

lookup-apply_levels_example :
    lookup {K = ℕ} 6 (apply_levels naturals ((6, 4) ∷ []) levels).0
    ≡ or_before naturals (last_said naturals 6 levels) (lookup {K = ℕ} 6 ((6, 4) ∷ []))
lookup-apply_levels_example = lookup-apply_levels naturals 6 ((6, 4) ∷ []) levels

start-IsPositive : IsPositive naturals ((6, 4) ∷ [])
unfolding lookup
start-IsPositive p a h = ground arith

apply_levels-IsPositive_example : IsPositive naturals (apply_levels naturals ((6, 4) ∷ []) levels).0
apply_levels-IsPositive_example =
    apply_levels-IsPositive naturals ((6, 4) ∷ []) levels start-IsPositive

abbrev snapshot_7 : BookUpdate naturals
snapshot_7 = record {
  kind = codes "snapshot";
  instrument_name = codes "BTC";
  change_id = pos 7;
  prev_change_id = pos 0;
  timestamp = pos 1;
  bids = level (codes "new") 5 2 ∷ [];
  asks = [];
}

abbrev change_9 : BookUpdate naturals
change_9 = record {
  kind = codes "change";
  instrument_name = codes "BTC";
  change_id = pos 9;
  prev_change_id = pos 7;
  timestamp = pos 2;
  bids = level (codes "delete") 5 0 ∷ [];
  asks = level (codes "new") 6 3 ∷ [];
}

abbrev updates : List (BookUpdate naturals)
updates = change_9 ∷ snapshot_7 ∷ change_9 ∷ []

live : (apply_all naturals (new_order_book naturals (codes "BTC")) updates).stale ≡ false
unfolding apply_all apply apply_change apply_sides apply_levels read_level new_order_book same
    insert erase
live = refl

apply_all-InSync_example :
    InSync naturals (apply_all naturals (new_order_book naturals (codes "BTC")) updates)
apply_all-InSync_example = apply_all-InSync naturals (codes "BTC") updates live
