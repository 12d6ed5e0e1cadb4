-- ===== src/Intent/Confirm/Indexes.antt =====
-- The two indexes of the snapshot and the trades agree, and a confirmation keeps it so.
use venuewire.Prelude.{
  ℕ, ◌≡◌, refl, ap, ◌∙◌, inl, inr, Bool, true, false, none, some, arith, Text, text_eq, is_empty,
  ok, Option-cases,
}
use venuewire.Prelude.Map.{
  Map, lookup, insert, lookup-insert_self, lookup-insert_cases, lookup-insert_new,
}
use venuewire.Intent.Types.{QuickTrade, Snapshot}
use venuewire.Intent.Status.Paths.{IsSound}
use venuewire.Intent.Evolution.{Extends, Extends-refl, Evolves-refl, insert_new-keeps}
use venuewire.Intent.Confirm.{Confirmation, DemoLimits, index_at, new_trade, confirm_in}
use venuewire.Intent.Confirm.Cases.{
  key_of, admitted, Confirmed, replayed, adopted, created_new, confirm_in-ok,
}

pub record IsConsistent (s : Snapshot) : Type 0 where
  pub by_request :
      (key id : Text)
      → lookup key s.quick_requests ≡ some id
      → (t : QuickTrade) × (is_empty id ≡ false) × (lookup id s.quick_trades ≡ some t)
  pub by_quote :
      (quote id : Text)
      → lookup quote s.consumed_quotes ≡ some id
      → (t : QuickTrade) × (is_empty id ≡ false)
        × (lookup id s.quick_trades ≡ some t)
        × (t.quote.id ≡ quote)
  pub by_id :
      (id : Text) (t : QuickTrade)
      → lookup id s.quick_trades ≡ some t
      → (t.id ≡ id) × (lookup t.quote.id s.consumed_quotes ≡ some id) × IsSound t

pub index_at-some :
    (k : Text) (m : Map Text Text) (id : Text)
    → index_at k m ≡ id
    → is_empty id ≡ false
    → lookup k m ≡ some id
unfolding index_at is_empty
index_at-some k m id h ne = ground arith

pub lookup-index_at :
    (k : Text) (m : Map Text Text) {id : Text} → lookup k m ≡ some id → index_at k m ≡ id
unfolding index_at
lookup-index_at k m h = ground arith

-- Where stored identifiers are not empty, an empty answer means that there is no entry.
pub index_at-none :
    (k : Text) (m : Map Text Text)
    → ((id : Text) → lookup k m ≡ some id → is_empty id ≡ false)
    → is_empty (index_at k m) ≡ true
    → lookup k m ≡ none
index_at-none k m stored h = elim (Option-cases (lookup k m)) [
  | inl missing ↦ missing
  | inr (id, found) ↦ cc (stored id found, ap is_empty (lookup-index_at k m found))
]

new_trade-IsSound : (c : Confirmation) (now : ℕ) → IsSound (new_trade c now)
unfolding new_trade
new_trade-IsSound c now = ground arith

pub new_trade_fields :
    (c : Confirmation) (now : ℕ)
    → ((new_trade c now).id ≡ c.intent_id) × ((new_trade c now).quote.id ≡ c.quote.id)
unfolding new_trade
new_trade_fields c now = (refl, refl)

module _ (c : Confirmation) (now : ℕ) (s : Snapshot) (v : IsConsistent s)
    (given : is_empty c.intent_id ≡ false) (unused : lookup c.intent_id s.quick_trades ≡ none)
    (unquoted : lookup c.quote.id s.consumed_quotes ≡ none) where
  admitted-IsConsistent : IsConsistent (admitted c now s)
  admitted-IsConsistent = record {
    by_request = λ key id h.
        elim (lookup-insert_cases (key_of c) key c.intent_id s.quick_requests h) [
          | inl (_, eq) ↦
              (new_trade c now, rw (← eq) given, rw (← eq) (lookup-insert_self c.intent_id _ _))
          | inr (_, old) ↦
              let (t, ne, found) = v.by_request key id old in
              (t, ne, lookup-insert_new _ _ _ _ _ unused found)
        ];
    by_quote = λ quote id h.
        elim (lookup-insert_cases c.quote.id quote c.intent_id s.consumed_quotes h) [
          | inl (q, eq) ↦ (
            new_trade c now,
            rw (← eq) given,
            rw (← eq) (lookup-insert_self c.intent_id _ _),
            (new_trade_fields c now).1 ∙ q,
          )
          | inr (_, old) ↦
              let (t, ne, found, q) = v.by_quote quote id old in
              (t, ne, lookup-insert_new _ _ _ _ _ unused found, q)
        ];
    by_id = λ id t h. elim (lookup-insert_cases c.intent_id id (new_trade c now) s.quick_trades h) [
      | inl (i, eq) ↦ rw (← eq) (
        (new_trade_fields c now).0 ∙ i,
        rw (new_trade_fields c now).1 (rw (← i) (lookup-insert_self c.quote.id _ _)),
        new_trade-IsSound c now,
      )
      | inr (_, old) ↦
          let (own, indexed, sound) = v.by_id id t old in
          (own, lookup-insert_new _ _ _ _ _ unquoted indexed, sound)
    ];
  }

  admitted-Extends : lookup (key_of c) s.quick_requests ≡ none → Extends s (admitted c now s)
  admitted-Extends unseen = record {
    version = refl;
    requests = insert_new-keeps (key_of c) c.intent_id s.quick_requests unseen;
    quotes = insert_new-keeps c.quote.id c.intent_id s.consumed_quotes unquoted;
    trades = λ id t h. (t, lookup-insert_new _ _ _ _ _ unused h, Evolves-refl t);
  }

module _ (c : Confirmation) (limits : DemoLimits) (now : ℕ) (s : Snapshot)
    (v : IsConsistent s) where
  requests_nonempty :
      (id : Text) → lookup (key_of c) s.quick_requests ≡ some id → is_empty id ≡ false
  requests_nonempty id h = (v.by_request (key_of c) id h).1

  quotes_nonempty :
      (id : Text) → lookup c.quote.id s.consumed_quotes ≡ some id → is_empty id ≡ false
  quotes_nonempty id h = (v.by_quote c.quote.id id h).1

  module _ (id : Text) (t : QuickTrade) (given : is_empty id ≡ false)
      (found : lookup id s.quick_trades ≡ some t) where
    adopted-IsConsistent :
        IsConsistent (record s { quick_requests = insert (key_of c) id s.quick_requests })
    adopted-IsConsistent = record {
      by_request = λ key id' h. elim (lookup-insert_cases (key_of c) key id s.quick_requests h) [
        | inl (_, eq) ↦ (t, rw (← eq) given, rw (← eq) found)
        | inr (_, old) ↦ v.by_request key id' old
      ];
      by_quote = v.by_quote;
      by_id = v.by_id;
    }

    adopted-Extends :
        lookup (key_of c) s.quick_requests ≡ none
        → Extends s (record s { quick_requests = insert (key_of c) id s.quick_requests })
    adopted-Extends unseen = record {
      version = refl;
      requests = insert_new-keeps (key_of c) id s.quick_requests unseen;
      quotes = λ quote id' h. h;
      trades = λ id' t' h. (t', h, Evolves-refl t');
    }

  Confirmed-IsConsistent :
      {s' : Snapshot} {t : QuickTrade} {b : Bool}
      → is_empty c.intent_id ≡ false
      → Confirmed c limits now s s' t b
      → IsConsistent s' × Extends s s'
  Confirmed-IsConsistent given (replayed id _ _ _ _ next _) = rw next (v, Extends-refl s)
  Confirmed-IsConsistent {t = t} given (adopted id unseen _ ne found next _) = rw next (
    adopted-IsConsistent id t ne found,
    adopted-Extends id t ne found (index_at-none _ _ requests_nonempty unseen),
  )
  Confirmed-IsConsistent given (created_new unseen unquoted _ unused _ next _ _) =
      let fresh = index_at-none _ _ quotes_nonempty unquoted in
      rw next (
        admitted-IsConsistent c now s v given unused fresh,
        admitted-Extends c now s v given unused fresh (index_at-none _ _ requests_nonempty unseen),
      )

  -- A confirmation keeps the indexes consistent, and every entry and trade that was there.
  pub confirm_in-IsConsistent :
      {s' : Snapshot} {t : QuickTrade} {b : Bool}
      → is_empty c.intent_id ≡ false
      → confirm_in c limits now s ≡ ok (s', (t, b))
      → IsConsistent s' × Extends s s'
  confirm_in-IsConsistent given h = Confirmed-IsConsistent given (confirm_in-ok c limits now s h)
