-- ===== src/Intent/Evolution.antt =====
-- What no call may change: the index entries, and the identity and the quote of each trade.
use venuewire.Prelude.{
  ◌≡◌, refl, ap, ◌∙◌, subst, same_key, inl, inr, true, none, some, arith, Text, text_eq,
}
use venuewire.Prelude.Map.{
  Map, lookup, insert, lookup-insert_self, lookup-insert_ne, lookup-insert_new,
}
use venuewire.Intent.Types.{QuickTrade, Snapshot}
use venuewire.Intent.Status.{active, terminal}

-- The same trade at a later time.
pub record Evolves (t t' : QuickTrade) : Type 0 where
  pub id : t'.id ≡ t.id
  pub identity : t'.identity ≡ t.identity
  pub session_id : t'.session_id ≡ t.session_id
  pub client_order_id : t'.client_order_id ≡ t.client_order_id
  pub quote : t'.quote ≡ t.quote
  pub created_at : t'.created_at ≡ t.created_at
  pub sent : t.send_attempted ≡ true → t'.send_attempted ≡ true
  pub ended : terminal t.status ≡ true → terminal t'.status ≡ true
  pub active_before : active t'.status ≡ true → active t.status ≡ true

pub Evolves-refl : (t : QuickTrade) → Evolves t t
Evolves-refl t = ground arith

pub Evolves-trans : {t u v : QuickTrade} → Evolves t u → Evolves u v → Evolves t v
Evolves-trans {t} {u} {v} e f = record {
  id = f.id ∙ e.id;
  identity = f.identity ∙ e.identity;
  session_id = f.session_id ∙ e.session_id;
  client_order_id = f.client_order_id ∙ e.client_order_id;
  quote = f.quote ∙ e.quote;
  created_at = f.created_at ∙ e.created_at;
  sent = λ h. f.sent (e.sent h);
  ended = λ h. f.ended (e.ended h);
  active_before = λ h. e.active_before (f.active_before h);
}

-- A later snapshot of the same store.
pub record Extends (s s' : Snapshot) : Type 0 where
  pub version : s'.version ≡ s.version
  pub requests :
      (key id : Text)
      → lookup key s.quick_requests ≡ some id
      → lookup key s'.quick_requests ≡ some id
  pub quotes :
      (quote id : Text)
      → lookup quote s.consumed_quotes ≡ some id
      → lookup quote s'.consumed_quotes ≡ some id
  pub trades :
      (id : Text) (t : QuickTrade)
      → lookup id s.quick_trades ≡ some t
      → (t' : QuickTrade) × (lookup id s'.quick_trades ≡ some t') × Evolves t t'

pub Extends-refl : (s : Snapshot) → Extends s s
Extends-refl s = record {
  version = refl;
  requests = λ key id h. h;
  quotes = λ quote id h. h;
  trades = λ id t h. (t, h, Evolves-refl t);
}

pub Extends-trans : {s u v : Snapshot} → Extends s u → Extends u v → Extends s v
Extends-trans e f = record {
  version = f.version ∙ e.version;
  requests = λ key id h. f.requests key id (e.requests key id h);
  quotes = λ quote id h. f.quotes quote id (e.quotes quote id h);
  trades = λ id t h.
      let (t', h', e') = e.trades id t h in
      let (t'', h'', f') = f.trades id t' h' in (t'', h'', Evolves-trans e' f');
}

-- A new key in a map of strings keeps the old entries.
pub insert_new-keeps :
    {V : Type 0} (k : Text) (v : V) (m : Map Text V)
    → lookup k m ≡ none
    → (j : Text) (w : V) → lookup j m ≡ some w
    → lookup j (insert k v m) ≡ some w
insert_new-keeps k v m fresh j w h = lookup-insert_new k j v w m fresh h

pub insert-Evolves :
    (k : Text) (old new : QuickTrade) (m : Map Text QuickTrade)
    → lookup k m ≡ some old
    → Evolves old new
    → (id : Text) (t : QuickTrade) → lookup id m ≡ some t
    → (t' : QuickTrade) × (lookup id (insert k new m) ≡ some t') × Evolves t t'
insert-Evolves k old new m found e id t h = elim (same_key k id) [
  | inl eq ↦
      let here : old ≡ t = cc (ap (λ i. lookup i m) eq) in
      (new, rw (← eq) (lookup-insert_self k new m), subst (λ x. Evolves x new) here e)
  | inr ne ↦ (t, lookup-insert_ne k id new m ne ∙ h, Evolves-refl t)
]
