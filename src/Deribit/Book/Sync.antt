-- ===== src/Deribit/Book/Sync.antt =====
-- A book that is not stale is a snapshot and the unbroken chain of changes behind it.
use venuewire.Prelude.{
  ◌≡◌, refl, ap, sym, subst, inl, inr, ◌⊎◌, true, false, not, ◌||◌, none, some, List, [], ◌∷◌,
  arith, Bool-cases, Option-cases, Text, same, same_iff, codes,
}
use venuewire.Prelude.Int.{eqb_ℤ, leb_ℤ, eqb_ℤ_iff, ◌<ℤ◌}
use venuewire.Deribit.Book.{
  Floats, BookError, BookUpdate, OrderBook, new_order_book, apply_levels, apply_sides, apply_change,
  apply, apply_all,
}

module _ (num : Floats) where
  open num use {Float, float_eq}

  -- The levels of the update, applied without an error to both sides of a book.
  pub record Applied (b : OrderBook num) (u : BookUpdate num) (b' : OrderBook num) : Type 0 where
    pub bids : apply_levels num b.bids u.bids ≡ (b'.bids, none)
    pub asks : apply_levels num b.asks u.asks ≡ (b'.asks, none)
    pub change_id : b'.change_id ≡ u.change_id
    pub instrument : (b'.instrument ≡ b.instrument) × (u.instrument_name ≡ b.instrument)

  -- What the sequence numbers promise of a book.
  pub data InSync : OrderBook num → Type 0 where
    snapshot :
        {b b' : OrderBook num} (u : BookUpdate num)
        → u.kind ≡ codes "snapshot"
        → b.bids ≡ []
        → b.asks ≡ []
        → Applied b u b'
        → InSync b'
    next :
        {b b' : OrderBook num} (u : BookUpdate num)
        → InSync b
        → u.kind ≡ codes "change"
        → u.prev_change_id ≡ b.change_id
        → b.change_id <ℤ u.change_id
        → Applied b u b'
        → InSync b'

  -- The three ways through both sides.
  sides_bids :
      (b : OrderBook num) (u : BookUpdate num) (e : BookError)
      → (apply_levels num b.bids u.bids).1 ≡ some e
      → (apply_sides num b u).0.stale ≡ true
  unfolding apply_sides
  sides_bids b u e h = rw (h, apply_sides) refl

  sides_asks :
      (b : OrderBook num) (u : BookUpdate num) (e : BookError)
      → (apply_levels num b.bids u.bids).1 ≡ none
      → (apply_levels num b.asks u.asks).1 ≡ some e
      → (apply_sides num b u).0.stale ≡ true
  unfolding apply_sides
  sides_asks b u e fine h = rw (fine, h, apply_sides) refl

  sides_both :
      (b : OrderBook num) (u : BookUpdate num)
      → (apply_levels num b.bids u.bids).1 ≡ none
      → (apply_levels num b.asks u.asks).1 ≡ none
      → (apply_sides num b u).0 ≡ record b {
        bids = (apply_levels num b.bids u.bids).0;
        asks = (apply_levels num b.asks u.asks).0;
        change_id = u.change_id;
        stale = false;
      }
  unfolding apply_sides
  sides_both b u fine fine' = rw (fine, fine', apply_sides) refl

  both-Applied :
      (b : OrderBook num) (u : BookUpdate num)
      → u.instrument_name ≡ b.instrument
      → (apply_levels num b.bids u.bids).1 ≡ none
      → (apply_levels num b.asks u.asks).1 ≡ none
      → Applied b u (apply_sides num b u).0
  both-Applied b u here fine fine' =
      subst (λ b'. Applied b u b') (sym (sides_both b u fine fine'))
        (record {
          bids = ap (λ e. ((apply_levels num b.bids u.bids).0, e)) fine;
          asks = ap (λ e. ((apply_levels num b.asks u.asks).0, e)) fine';
          change_id = refl;
          instrument = (refl, here);
        })

  apply_sides-cases :
      (b : OrderBook num) (u : BookUpdate num)
      → u.instrument_name ≡ b.instrument
      → ((apply_sides num b u).0.stale ≡ true) ⊎ Applied b u (apply_sides num b u).0
  apply_sides-cases b u here = elim (Option-cases (apply_levels num b.bids u.bids).1) [
    | inr (e, failed) ↦ inl (sides_bids b u e failed)
    | inl fine ↦ elim (Option-cases (apply_levels num b.asks u.asks).1) [
      | inr (e, failed) ↦ inl (sides_asks b u e fine failed)
      | inl fine' ↦ inr (both-Applied b u here fine fine')
    ]
  ]

  -- What `Apply` did: it left the book as it was, made it stale, or applied the whole update.
  data Outcome (b : OrderBook num) (u : BookUpdate num) : OrderBook num → Type 0 where
    kept : Outcome b u b
    lost : {b' : OrderBook num} → b'.stale ≡ true → Outcome b u b'
    restarted :
        {b' : OrderBook num}
        → u.kind ≡ codes "snapshot"
        → Applied (record b { bids = []; asks = [] }) u b'
        → Outcome b u b'
    advanced :
        {b' : OrderBook num}
        → b.stale ≡ false
        → u.kind ≡ codes "change"
        → u.prev_change_id ≡ b.change_id
        → b.change_id <ℤ u.change_id
        → Applied b u b'
        → Outcome b u b'

  lost_or :
      {b' : OrderBook num} (b : OrderBook num) (u : BookUpdate num) {P : Type 0}
      → (b'.stale ≡ true) ⊎ P
      → (P → Outcome b u b')
      → Outcome b u b'
  lost_or b u (inl stale) f = lost stale
  lost_or b u (inr p) f = f p

  apply_change-Outcome :
      (b : OrderBook num) (u : BookUpdate num)
      → u.instrument_name ≡ b.instrument
      → u.kind ≡ codes "change"
      → b.stale ≡ false
      → Outcome b u (apply_change num b u).0
  unfolding apply_change
  apply_change-Outcome b u here kind live = elim (Bool-cases (eqb_ℤ u.change_id b.change_id)) [
    | inl again ↦ rw again kept
    | inr new ↦
        elim (Bool-cases
          (not (eqb_ℤ u.prev_change_id b.change_id) || leb_ℤ u.change_id b.change_id)) [
            | inl gap ↦ rw (new, gap) (lost refl)
            | inr follows ↦
                let chained : u.prev_change_id ≡ b.change_id =
                  (eqb_ℤ_iff u.prev_change_id b.change_id).0 (ground arith) in
                let grows : b.change_id <ℤ u.change_id = ground arith in
                rw (new, follows)
                  (lost_or b u (apply_sides-cases b u here) (advanced live kind chained grows))
          ]
  ]

  apply_live :
      (b : OrderBook num) (u : BookUpdate num)
      → same u.instrument_name b.instrument ≡ true
      → same u.kind (codes "snapshot") ≡ false
      → same u.kind (codes "change") ≡ true
      → b.stale ≡ false
      → apply_change num b u ≡ apply num b u
  unfolding apply
  apply_live b u here part change live = ground arith

  apply-Outcome : (b : OrderBook num) (u : BookUpdate num) → Outcome b u (apply num b u).0
  unfolding apply
  apply-Outcome b u = elim (Bool-cases (same u.instrument_name b.instrument)) [
    | inr elsewhere ↦ rw elsewhere kept
    | inl here ↦
        let name = (same_iff u.instrument_name b.instrument).0 here in
        elim (Bool-cases (same u.kind (codes "snapshot"))) [
          | inl whole ↦
              let kind = (same_iff u.kind (codes "snapshot")).0 whole in
              rw (here, whole)
                (lost_or b u (apply_sides-cases (record b { bids = []; asks = [] }) u name)
                  (restarted kind))
          | inr part ↦ elim (Bool-cases (same u.kind (codes "change"))) [
            | inr unknown ↦ rw (here, part, unknown) (lost refl)
            | inl change ↦ elim (Bool-cases b.stale) [
              | inl stale ↦ rw (here, part, change, stale) kept
              | inr live ↦
                  subst (λ r. Outcome b u r.0) (apply_live b u here part change live)
                    (apply_change-Outcome b u name ((same_iff u.kind (codes "change")).0 change)
                      live)
            ]
          ]
        ]
  ]

  InSync-after :
      (b : OrderBook num) (u : BookUpdate num) {b' : OrderBook num}
      → Outcome b u b'
      → (b.stale ≡ false → InSync b)
      → b'.stale ≡ false
      → InSync b'
  InSync-after b u kept h live = h live
  InSync-after b u (lost stale) h live = cc
  InSync-after b u (restarted kind done) h live = snapshot u kind refl refl done
  InSync-after b u (advanced was kind chained grows done) h live =
      next u (h was) kind chained grows done

  InSync-all :
      (b : OrderBook num) (us : List (BookUpdate num))
      → (b.stale ≡ false → InSync b)
      → (apply_all num b us).stale ≡ false
      → InSync (apply_all num b us)
  unfolding apply_all
  InSync-all b [] h live = h live
  InSync-all b (u ∷ us) h live =
      InSync-all (apply num b u).0 us (InSync-after b u (apply-Outcome b u) h) live

  -- A book that starts empty and is not stale after any sequence of updates is the result of a
  -- snapshot whose levels all applied and of changes, each of which continues the change ID of
  -- the book before it, raises it, and applied with all its levels.
  pub apply_all-InSync :
      (instrument : Text) (us : List (BookUpdate num))
      → (apply_all num (new_order_book num instrument) us).stale ≡ false
      → InSync (apply_all num (new_order_book num instrument) us)
  apply_all-InSync instrument us live =
      InSync-all (new_order_book num instrument) us (λ h. unfold new_order_book in cc h) live
