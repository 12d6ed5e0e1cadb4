-- ===== src/OrderState/Filling/Sums.antt =====
-- What an execution adds up to in `addDecimal`, and the status behind it.
use venuewire.Prelude.{
  ℕ, ◌≤◌, ◌≡◌, ◌≢◌, refl, ◌⊎◌, inl, inr, true, false, some, leb, if◌then◌else◌, Text, text_eq,
  is_empty, codes, ok, Bool-cases, Option-cases, arith,
}
use venuewire.OrderState.Types.{OrderStatus, partially_filled, filled, pending_cancel, Order}
use venuewire.OrderState.Transitions.{eq_status}
use venuewire.OrderState.Filling.{Rationals, decimal_places, add_decimal, reaches, next_status}

longer :
    (a b : ℕ)
    → (a ≤ (if leb a b then b else a))
      × (b ≤ (if leb a b then b else a))
      × (((if leb a b then b else a) ≡ a) ⊎ ((if leb a b then b else a) ≡ b))
longer a b = ground arith

or_zero :
    (left : Text)
    → ((is_empty left ≡ true) × ((if is_empty left then codes "0" else left) ≡ codes "0"))
      ⊎ ((is_empty left ≡ false) × ((if is_empty left then codes "0" else left) ≡ left))
or_zero left = elim (Bool-cases (is_empty left)) [
  | inl blank ↦ inl (blank, rw blank refl)
  | inr given ↦ inr (given, rw given refl)
]

is_cancelling : (a : OrderStatus) → eq_status a pending_cancel ≡ true → a ≡ pending_cancel
is_cancelling a h = ground arith

not_cancelling : (a : OrderStatus) → eq_status a pending_cancel ≡ false → a ≢ pending_cancel
not_cancelling a h e = ground arith

module _ (num : Rationals) where
  open num use {Rat, set_string, add, le, float_string}

  -- The text is the sum, with the digits behind the point of the longer one of the two; a blank
  -- quantity counts as zero.
  pub record IsSum (left right sum : Text) : Type 0 where
    pub written : Text
    pub l : Rat
    pub r : Rat
    pub places : ℕ
    pub left_is :
        ((is_empty left ≡ true) × (written ≡ codes "0"))
        ⊎ ((is_empty left ≡ false) × (written ≡ left))
    pub reads_left : set_string written ≡ some l
    pub reads_right : set_string right ≡ some r
    pub behind_left : decimal_places written ≤ places
    pub behind_right : decimal_places right ≤ places
    pub behind_one : (places ≡ decimal_places written) ⊎ (places ≡ decimal_places right)
    pub prints : sum ≡ float_string (add l r) places

  -- The sum is at least the quantity, where one is given.
  abbrev pub HasReached : Text → Text → Type 0
  HasReached sum qty =
      (is_empty qty ≡ false)
      × (x : Rat) × (y : Rat) × (set_string sum ≡ some x)
      × (set_string qty ≡ some y)
      × (le y x ≡ true)

  -- The status of an order after a fill, by its status before.
  abbrev pub Settles : Text → Text → OrderStatus → OrderStatus → Type 0
  Settles sum qty before after =
      (HasReached sum qty × (after ≡ filled))
      ⊎ (¬ HasReached sum qty
          × (((before ≡ pending_cancel) × (after ≡ pending_cancel))
              ⊎ ((before ≢ pending_cancel) × (after ≡ partially_filled))))

  pub add_decimal-IsSum :
      (left right : Text) {sum : Text} → add_decimal num left right ≡ ok sum → IsSum left right sum
  unfolding add_decimal
  add_decimal-IsSum left right {sum} h =
      let w = if is_empty left then codes "0" else left in
      elim (Option-cases (set_string w)) [
        | inl unread ↦ absurd (ground arith)
        | inr (l, reads_l) ↦ elim (Option-cases (set_string right)) [
          | inl unread ↦ absurd (ground arith)
          | inr (r, reads_r) ↦
              let a = decimal_places w in
              let b = decimal_places right in
              let (below_a, below_b, one) = longer a b in
              record {
                written = w;
                l = l;
                r = r;
                places = if leb a b then b else a;
                left_is = or_zero left;
                reads_left = reads_l;
                reads_right = reads_r;
                behind_left = below_a;
                behind_right = below_b;
                behind_one = one;
                prints = ground arith;
              }
        ]
      ]

  reaches-unread :
      (left right : Text)
      → reaches num left right ≡ false
      → (x y : Rat) → set_string left ≡ some x
      → set_string right ≡ some y
      → le y x ≡ false
  unfolding reaches
  reaches-unread left right h x y reads_x reads_y = rw (reads_x, reads_y, reaches) at h

  reaches-read :
      (left right : Text)
      → reaches num left right ≡ true
      → (x : Rat) × (y : Rat) × (set_string left ≡ some x)
        × (set_string right ≡ some y)
        × (le y x ≡ true)
  unfolding reaches
  reaches-read left right h = elim (Option-cases (set_string left)) [
    | inl unread ↦ absurd (ground arith)
    | inr (x, reads_x) ↦ elim (Option-cases (set_string right)) [
      | inl unread ↦ absurd (ground arith)
      | inr (y, reads_y) ↦ (x, y, reads_x, reads_y, rw (reads_x, reads_y, reaches) at h)
    ]
  ]

  -- An order that is short of its quantity.
  short_status :
      (sum : Text) (o : Order)
      → ¬ HasReached sum o.qty
      → next_status num sum o
        ≡ (if eq_status o.status pending_cancel then pending_cancel else partially_filled)
      → Settles sum o.qty o.status (next_status num sum o)
  short_status sum o short goes = elim (Bool-cases (eq_status o.status pending_cancel)) [
    | inl cancelling ↦ inr (short, inl (is_cancelling o.status cancelling, rw cancelling at goes))
    | inr other ↦ inr (short, inr (not_cancelling o.status other, rw other at goes))
  ]

  pub next_status-Settles :
      (sum : Text) (o : Order) → Settles sum o.qty o.status (next_status num sum o)
  unfolding next_status
  next_status-Settles sum o = elim (Bool-cases (is_empty o.qty)) [
    | inl blank ↦ short_status sum o (λ h. absurd (cc (blank, h.0))) (ground arith)
    | inr given ↦ elim (Bool-cases (reaches num sum o.qty)) [
      | inl reached ↦
          let (x, y, reads_x, reads_y, enough) = reaches-read sum o.qty reached in
          inl ((given, x, y, reads_x, reads_y, enough), ground arith)
      | inr short ↦
          short_status sum o
            (λ h.
              let (_, x, y, reads_x, reads_y, enough) = h in
              let not_enough = reaches-unread sum o.qty short x y reads_x reads_y in
              absurd (cc (enough, not_enough)))
            (ground arith)
    ]
  ]
