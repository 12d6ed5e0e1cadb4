-- ===== src/Intent/Confirm/Repeat.antt =====
-- A confirmation that is repeated finds its trade again.
use venuewire.Prelude.{
  ℕ, ◌≡◌, sym, ap, ◌∙◌, subst, Bool, false, some, Text, text_eq, same_refl, is_empty, ok,
}
use venuewire.Prelude.Map.{lookup, lookup-insert_self}
use venuewire.Intent.Types.{QuickTrade, Snapshot}
use venuewire.Intent.Evolution.{Extends, Evolves}
use venuewire.Intent.Confirm.{
  Confirmation, DemoLimits, index_at, new_trade, replay_trade, confirm_in,
}
use venuewire.Intent.Confirm.Cases.{
  key_of, Confirmed, replayed, adopted, created_new, confirm_in-ok,
}
use venuewire.Intent.Confirm.Indexes.{
  IsConsistent, index_at-some, lookup-index_at, new_trade_fields,
}

-- Both indexes lead to the trade that was handed out.
record IsIndexed (c : Confirmation) (s : Snapshot) (t : QuickTrade) : Type 0 where
  id : Text
  nonempty : is_empty id ≡ false
  request : lookup (key_of c) s.quick_requests ≡ some id
  quote : lookup c.quote.id s.consumed_quotes ≡ some id
  trade : lookup id s.quick_trades ≡ some t
  quote_id : t.quote.id ≡ c.quote.id

module _ (c : Confirmation) (limits : DemoLimits) (now : ℕ) (s : Snapshot)
    (v : IsConsistent s) where
  Confirmed-IsIndexed :
      {s' : Snapshot} {t : QuickTrade} {b : Bool}
      → is_empty c.intent_id ≡ false
      → Confirmed c limits now s s' t b
      → IsIndexed c s' t
  Confirmed-IsIndexed {t = t} given (replayed id at ne found quote next _) = rw next (record {
    id = id;
    nonempty = ne;
    request = index_at-some _ _ id at ne;
    quote = rw (← quote) (v.by_id id t found).1;
    trade = found;
    quote_id = quote;
  })
  Confirmed-IsIndexed {t = t} given (adopted id _ at ne found next _) =
      let indexed = index_at-some _ _ id at ne in
      let (u, _, there, quote) = v.by_quote _ id indexed in
      let here : u ≡ t = cc in
      rw next (record {
        id = id;
        nonempty = ne;
        request = lookup-insert_self (key_of c) id s.quick_requests;
        quote = indexed;
        trade = found;
        quote_id = rw (← here) quote;
      })
  Confirmed-IsIndexed given (created_new _ _ _ _ _ next fresh _) =
      rw (next, fresh)
        (record {
          id = c.intent_id;
          nonempty = given;
          request = lookup-insert_self (key_of c) c.intent_id s.quick_requests;
          quote = lookup-insert_self c.quote.id c.intent_id s.consumed_quotes;
          trade = lookup-insert_self c.intent_id (new_trade c now) s.quick_trades;
          quote_id = (new_trade_fields c now).1;
        })

replay_trade-found :
    (c : Confirmation) (id : Text) (s : Snapshot) (t : QuickTrade)
    → lookup id s.quick_trades ≡ some t
    → t.quote.id ≡ c.quote.id
    → replay_trade c id s ≡ ok (s, (t, false))
unfolding replay_trade
replay_trade-found c id s t found quote = rw found (rw quote (rw (same_refl c.quote.id)))

confirm_in-indexed :
    (c : Confirmation) (limits : DemoLimits) (now : ℕ) (s : Snapshot) (id : Text)
    → lookup (key_of c) s.quick_requests ≡ some id
    → is_empty id ≡ false
    → confirm_in c limits now s ≡ replay_trade c id s
unfolding confirm_in
confirm_in-indexed c limits now s id at ne = rw (lookup-index_at _ _ at) (rw ne)

module _ (c : Confirmation) (limits : DemoLimits) (now : ℕ) (s s1 s2 : Snapshot) (t : QuickTrade)
    (b : Bool) (v : IsConsistent s) (given : is_empty c.intent_id ≡ false)
    (done : confirm_in c limits now s ≡ ok (s1, (t, b))) (later : Extends s1 s2) where
  first : IsIndexed c s1 t
  first = Confirmed-IsIndexed c limits now s v given (confirm_in-ok c limits now s done)

  -- The trade under the quote's index entry is the one that was handed out, as it now is.
  evolved :
      (id : Text) (t' : QuickTrade)
      → lookup c.quote.id s2.consumed_quotes ≡ some id
      → lookup id s2.quick_trades ≡ some t'
      → Evolves t t'
  evolved id t' indexed there =
      let (u, found, same_trade) = later.trades first.id t first.trade in
      let entry = later.quotes _ _ first.quote in
      let here : first.id ≡ id = cc in
      let met : u ≡ t' = cc (ap (λ i. lookup i s2.quick_trades) here) in
      subst (λ x. Evolves t x) met same_trade

  -- Confirming again with the same request and the same quote, at any later time and under any
  -- limits, changes nothing and answers with the same trade as it now is.
  pub confirm_in-again :
      (c' : Confirmation) (limits' : DemoLimits) (now' : ℕ)
      → key_of c' ≡ key_of c
      → c'.quote.id ≡ c.quote.id
      → (t' : QuickTrade) × (confirm_in c' limits' now' s2 ≡ ok (s2, (t', false))) × Evolves t t'
  confirm_in-again c' limits' now' key quote =
      let (t', there, same_trade) = later.trades first.id t first.trade in
      let request = later.requests _ _ first.request in
      (
        t',
        confirm_in-indexed c' limits' now' s2 first.id (rw key request) first.nonempty
            ∙ replay_trade-found c' first.id s2 t' there
                (ap (λ q. q.id) same_trade.quote ∙ first.quote_id ∙ sym quote),
        same_trade,
      )

  Confirmed-once :
      (c' : Confirmation) (limits' : DemoLimits) (now' : ℕ) (s3 : Snapshot) (t' : QuickTrade)
      (b' : Bool)
      → IsConsistent s2
      → c'.quote.id ≡ c.quote.id
      → Confirmed c' limits' now' s2 s3 t' b'
      → (b' ≡ false) × Evolves t t'
  Confirmed-once c' limits' now' s3 t' b' v2 quote (replayed id _ _ there own _ flag) =
      (flag, evolved id t' (rw (← quote, ← own) (v2.by_id id t' there).1) there)
  Confirmed-once c' limits' now' s3 t' b' v2 quote (adopted id _ at ne there _ flag) =
      (flag, evolved id t' (rw (← quote) (index_at-some _ _ id at ne)) there)
  Confirmed-once c' limits' now' s3 t' b' v2 quote (created_new _ unquoted _ _ _ _ _ _) =
      let at : index_at c'.quote.id s2.consumed_quotes ≡ first.id =
        lookup-index_at _ _ (rw quote (later.quotes _ _ first.quote)) in
      cc (first.nonempty, ap is_empty at)

  -- No later confirmation of the same quote creates a trade, whatever request it comes with: if it
  -- succeeds it answers with the trade that the quote already has.
  pub confirm_in_once :
      (c' : Confirmation) (limits' : DemoLimits) (now' : ℕ) (s3 : Snapshot) (t' : QuickTrade)
      (b' : Bool)
      → IsConsistent s2
      → c'.quote.id ≡ c.quote.id
      → confirm_in c' limits' now' s2 ≡ ok (s3, (t', b'))
      → (b' ≡ false) × Evolves t t'
  confirm_in_once c' limits' now' s3 t' b' v2 quote h =
      Confirmed-once c' limits' now' s3 t' b' v2 quote (confirm_in-ok c' limits' now' s2 h)
