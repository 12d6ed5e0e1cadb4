-- ===== src/Intent/Confirm/Cases.antt =====
-- The three ways in which a confirmation succeeds.
use venuewire.Prelude.{
  ℕ, ◌<◌, ◌≡◌, refl, inl, inr, Bool, true, false, none, some, arith, Text, text_eq, same_iff,
  is_empty, ok, Bool-cases, Option-cases,
}
use venuewire.Prelude.Int.{pos, ◌<ℤ◌}
use venuewire.Prelude.Map.{lookup, insert, tally}
use venuewire.Intent.Types.{QuickTrade, Snapshot}
use venuewire.Intent.Confirm.{
  Confirmation, DemoLimits, quick_request_key, index_at, in_session, in_last_hour, is_active,
  new_trade, admit, confirm_fresh, adopt_trade, confirm_quote, replay_trade, confirm_in,
}

abbrev pub key_of : Confirmation → Text
key_of c = quick_request_key c.identity c.client_request_id

-- The snapshot after a new trade.
abbrev pub admitted : Confirmation → ℕ → Snapshot → Snapshot
admitted c now s = record s {
  quick_trades = insert c.intent_id (new_trade c now) s.quick_trades;
  quick_requests = insert (key_of c) c.intent_id s.quick_requests;
  consumed_quotes = insert c.quote.id c.intent_id s.consumed_quotes;
}

-- The quotas leave room for one more trade.
pub record HasRoom (c : Confirmation) (limits : DemoLimits) (now : ℕ) (s : Snapshot) : Type 0 where
  pub session :
      pos (tally (in_session c.session_id) s.quick_trades) <ℤ limits.max_trades_per_session
  pub hourly : pos (tally (in_last_hour now) s.quick_trades) <ℤ limits.max_trades_per_hour
  pub concurrent : pos (tally is_active s.quick_trades) <ℤ limits.max_concurrent_trades

-- How `confirm_in` turns `s` into `s'` and hands out the trade `t` with the flag `b`.
pub data Confirmed (c : Confirmation) (limits : DemoLimits) (now : ℕ) (s s' : Snapshot)
    (t : QuickTrade) (b : Bool) : Type 0 where
  replayed :
      (id : Text)
      → index_at (key_of c) s.quick_requests ≡ id
      → is_empty id ≡ false
      → lookup id s.quick_trades ≡ some t
      → t.quote.id ≡ c.quote.id
      → s' ≡ s
      → b ≡ false
      → Confirmed c limits now s s' t b
  adopted :
      (id : Text)
      → is_empty (index_at (key_of c) s.quick_requests) ≡ true
      → index_at c.quote.id s.consumed_quotes ≡ id
      → is_empty id ≡ false
      → lookup id s.quick_trades ≡ some t
      → s' ≡ record s { quick_requests = insert (key_of c) id s.quick_requests }
      → b ≡ false
      → Confirmed c limits now s s' t b
  created_new :
      is_empty (index_at (key_of c) s.quick_requests) ≡ true
      → is_empty (index_at c.quote.id s.consumed_quotes) ≡ true
      → now < c.quote.expires_at
      → lookup c.intent_id s.quick_trades ≡ none
      → HasRoom c limits now s
      → s' ≡ admitted c now s
      → t ≡ new_trade c now
      → b ≡ true
      → Confirmed c limits now s s' t b

module _ (c : Confirmation) (limits : DemoLimits) (now : ℕ) (s : Snapshot) where
  admit-ok :
      {s' : Snapshot} {t : QuickTrade} {b : Bool}
      → admit c limits now s ≡ ok (s', (t, b))
      → HasRoom c limits now s × (s' ≡ admitted c now s) × (t ≡ new_trade c now) × (b ≡ true)
  unfolding admit
  admit-ok h = ground arith

  confirm_fresh-ok :
      {s' : Snapshot} {t : QuickTrade} {b : Bool}
      → confirm_fresh c limits now s ≡ ok (s', (t, b))
      → (now < c.quote.expires_at)
        × (lookup c.intent_id s.quick_trades ≡ none)
        × (admit c limits now s ≡ ok (s', (t, b)))
  unfolding confirm_fresh
  confirm_fresh-ok h = ground arith

  created_new-ok :
      {s' : Snapshot} {t : QuickTrade} {b : Bool}
      → is_empty (index_at (key_of c) s.quick_requests) ≡ true
      → is_empty (index_at c.quote.id s.consumed_quotes) ≡ true
      → confirm_fresh c limits now s ≡ ok (s', (t, b))
      → Confirmed c limits now s s' t b
  created_new-ok no_request no_quote h =
      let (early, unused, made) = confirm_fresh-ok h in
      let (room, next, trade, flag) = admit-ok made in
      created_new no_request no_quote early unused room next trade flag

  adopt_trade-ok :
      (id : Text) {s' : Snapshot} {t : QuickTrade} {b : Bool}
      → adopt_trade c id s ≡ ok (s', (t, b))
      → (lookup id s.quick_trades ≡ some t)
        × (s' ≡ record s { quick_requests = insert (key_of c) id s.quick_requests })
        × (b ≡ false)
  unfolding adopt_trade
  adopt_trade-ok id h = ground arith

  replay_trade-ok :
      (id : Text) {s' : Snapshot} {t : QuickTrade} {b : Bool}
      → replay_trade c id s ≡ ok (s', (t, b))
      → (lookup id s.quick_trades ≡ some t) × (t.quote.id ≡ c.quote.id) × (s' ≡ s) × (b ≡ false)
  unfolding replay_trade
  replay_trade-ok id h = elim (Option-cases (lookup id s.quick_trades)) [
    | inl missing ↦ ground arith
    | inr (existing, found) ↦ ground (arith, same_iff existing.quote.id c.quote.id)
  ]

  confirm_quote-ok :
      {s' : Snapshot} {t : QuickTrade} {b : Bool}
      → is_empty (index_at (key_of c) s.quick_requests) ≡ true
      → confirm_quote c limits now s ≡ ok (s', (t, b))
      → Confirmed c limits now s s' t b
  unfolding confirm_quote
  confirm_quote-ok no_request h =
      elim (Bool-cases (is_empty (index_at c.quote.id s.consumed_quotes))) [
        | inl empty ↦ created_new-ok no_request empty (rw empty at h)
        | inr taken ↦
            let (found, next, flag) = adopt_trade-ok _ (rw taken at h) in
            adopted _ no_request refl taken found next flag
      ]

  -- Every successful confirmation is one of the three.
  pub confirm_in-ok :
      {s' : Snapshot} {t : QuickTrade} {b : Bool}
      → confirm_in c limits now s ≡ ok (s', (t, b))
      → Confirmed c limits now s s' t b
  unfolding confirm_in
  confirm_in-ok h = elim (Bool-cases (is_empty (index_at (key_of c) s.quick_requests))) [
    | inl empty ↦ confirm_quote-ok empty (rw empty at h)
    | inr taken ↦
        let (found, quote, next, flag) = replay_trade-ok _ (rw taken at h) in
        replayed _ refl taken found quote next flag
  ]
