-- ===== src/QuickTrade/Cache/Bounds.antt =====
-- The cache stays within its size, and serves no expired quote.
use venuewire.Prelude.{
  ℕ, ◌<◌, ◌≤◌, ◌≡◌, refl, subst, inl, inr, true, false, some, List, [], ◌∷◌, ◌++◌, ltb, length,
  Text, text_eq, same, same_iff, Bool-cases, Option-cases, arith,
}
use venuewire.Prelude.Map.{lookup, insert, erase, lookup-insert_cases}
use venuewire.Intent.Types.{QuickTradeQuote}
use venuewire.QuickTrade.Cache.{QuoteCache, prune_loop, prune, evict, put, get, add_id}
use venuewire.QuickTrade.Cache.Listed.{
  Quotes, listed, IsListed, lookup-erase_cases, empty-Quotes, erase-IsListed, listed-append,
  listed-last,
}
use venuewire.QuickTrade.Cache.Pruned.{prune_loop-IsLeft}

evict_over :
    (max : ℕ) (quotes : Quotes) (id : Text) (ids : List Text)
    → ltb max (length quotes) ≡ true
    → evict max quotes (id ∷ ids) ≡ evict max (erase id quotes) ids
unfolding evict
evict_over max quotes id ids h = rw (h, evict) refl

evict_within :
    (max : ℕ) (quotes : Quotes) (id : Text) (ids : List Text)
    → ltb max (length quotes) ≡ false
    → evict max quotes (id ∷ ids) ≡ (quotes, id ∷ ids)
unfolding evict
evict_within max quotes id ids h = rw (h, evict) refl

evict_kept :
    (max : ℕ) (quotes : Quotes) (ids : List Text)
    → IsListed quotes ids
    → let (quotes', ids') = evict max quotes ids in
      (length quotes' ≤ max)
      × IsListed quotes' ids'
      × ((id : Text) (q : QuickTradeQuote) → lookup id quotes' ≡ some q → lookup id quotes ≡ some q)
unfolding evict
evict_kept max quotes [] h =
    let none_left = empty-Quotes quotes h in (omega (arith, none_left), h, λ id q e. e)
evict_kept max quotes (id ∷ ids) h = elim (Bool-cases (ltb max (length quotes))) [
  | inr fits ↦ rw (evict_within max quotes id ids fits) (ground arith, h, λ j q e. e)
  | inl over ↦
      let (le, kept, sub) = evict_kept max (erase id quotes) ids (erase-IsListed id ids quotes h) in
      rw (evict_over max quotes id ids over)
        (le, kept, λ j q e. (lookup-erase_cases id j quotes (sub j q e)).1)
]

-- What holds of every cache: each quote stands under its identifier and is listed, and there are no
-- more quotes than the limit.
pub record IsBounded (c : QuoteCache) : Type 0 where
  pub keyed : (id : Text) (q : QuickTradeQuote) → lookup id c.quotes ≡ some q → q.id ≡ id
  pub listed_all : IsListed c.quotes c.order
  pub size : length c.quotes ≤ c.max

-- A quote that `Get` finds is the one that was asked for, of this identity, and has not expired.
pub get-live :
    (id identity : Text) (now : ℕ) (c : QuoteCache) {q : QuickTradeQuote}
    → IsBounded c
    → (get id identity now c).0 ≡ some q
    → (q.id ≡ id) × (q.identity ≡ identity) × (now < q.expires_at) × (lookup id c.quotes ≡ some q)
unfolding get prune
get-live id identity now c {q} b h =
    elim (Option-cases (lookup id (prune_loop now c.quotes c.order).0)) [
      | inl missing ↦ absurd (ground arith)
      | inr (p, found) ↦ elim (Bool-cases (same p.identity identity)) [
        | inr other ↦ absurd (ground arith)
        | inl own ↦
            let eq : p ≡ q = ground arith in
            let (old, f) = prune_loop-IsLeft now c.quotes c.order id p found in
            let early = (f (b.listed_all id p old)).0 in
            subst
              (λ x.
                (x.id ≡ id)
                × (x.identity ≡ identity)
                × (now < x.expires_at)
                × (lookup id c.quotes ≡ some x))
              eq (b.keyed id p old, (same_iff p.identity identity).0 own, early, old)
      ]
    ]

-- After the new quote is in, every quote is listed.
added-IsListed :
    (quote : QuickTradeQuote) (quotes : Quotes) (ids : List Text)
    → IsListed quotes ids
    → IsListed (insert quote.id quote quotes) (add_id quote.id (lookup quote.id quotes) ids)
added-IsListed quote quotes ids h j q found = elim (Option-cases (lookup quote.id quotes)) [
  | inr (old, there) ↦ rw there (elim (lookup-insert_cases quote.id j quote quotes found) [
    | inl (here, _) ↦ subst (λ x. listed x ids ≡ true) here (h quote.id old there)
    | inr (_, before) ↦ h j q before
  ])
  | inl unseen ↦ rw unseen (elim (lookup-insert_cases quote.id j quote quotes found) [
    | inl (here, _) ↦
        subst (λ x. listed x (ids ++ quote.id ∷ []) ≡ true) here (listed-last quote.id ids)
    | inr (_, before) ↦ listed-append j quote.id ids (h j q before)
  ])
]

-- `Put` keeps every quote under its identifier and listed, and the cache within its limit.
pub put-IsBounded :
    (quote : QuickTradeQuote) (now : ℕ) (c : QuoteCache) → IsBounded c → IsBounded (put quote now c)
unfolding put prune
put-IsBounded quote now c b =
    let p = prune_loop now c.quotes c.order in
    let left = prune_loop-IsLeft now c.quotes c.order in
    let all_listed : IsListed p.0 p.1 =
      λ id q found. let (old, f) = left id q found in (f (b.listed_all id q old)).1 in
    let (le, kept, sub) =
      evict_kept c.max (insert quote.id quote p.0) (add_id quote.id (lookup quote.id p.0) p.1)
        (added-IsListed quote p.0 p.1 all_listed) in
    record {
      keyed = λ id q found. elim (lookup-insert_cases quote.id id quote p.0 (sub id q found)) [
        | inl (here, eq) ↦ subst (λ x. x.id ≡ id) eq here
        | inr (_, before) ↦ b.keyed id q (left id q before).0
      ];
      listed_all = kept;
      size = le;
    }
