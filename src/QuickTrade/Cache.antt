-- ===== src/QuickTrade/Cache.antt =====
-- `QuoteCache` of internal/quicktrade/application.go.
pub mod Listed
pub mod Pruned
pub mod Bounds
use venuewire.Prelude.{
  ℕ, zero, suc, Bool, true, false, ◌&&◌, Option, none, some, List, [], ◌∷◌, ◌++◌, leb, ltb, length,
  if◌then◌else◌, Text, text_eq, same,
}
use venuewire.Prelude.Int.{ℤ, pos, negsuc}
use venuewire.Prelude.Map.{Map, lookup, insert, erase}
use venuewire.Intent.Types.{QuickTradeQuote}

pub record QuoteCache : Type 0 where
  pub max : ℕ
  pub quotes : Map Text QuickTradeQuote
  pub order : List Text

abbrev max_entries : ℤ → ℕ
max_entries (pos zero) = 1000
max_entries (pos (suc n)) = suc n
max_entries (negsuc _) = 1000

-- `NewQuoteCache`.
unfoldable pub new_quote_cache : ℤ → QuoteCache
new_quote_cache n = record { max = max_entries n; quotes = []; order = [] }

abbrev with_id : Text → Map Text QuickTradeQuote × List Text → Map Text QuickTradeQuote × List Text
with_id id (quotes, kept) = (quotes, id ∷ kept)

-- The loop of `prune`: the quotes that are left, and `kept`.
unfoldable pub prune_loop :
    ℕ → Map Text QuickTradeQuote → List Text → Map Text QuickTradeQuote × List Text
prune_loop now quotes [] = (quotes, [])
prune_loop now quotes (id ∷ ids) = elim (lookup id quotes) [
  | none ↦ prune_loop now quotes ids
  | some q ↦ elim (leb q.expires_at now) [
    | true ↦ prune_loop now (erase id quotes) ids
    | false ↦ with_id id (prune_loop now quotes ids)
  ]
]

unfoldable pub prune : ℕ → QuoteCache → QuoteCache
unfolding prune_loop
prune now c =
    let (quotes, kept) = prune_loop now c.quotes c.order in
    record c { quotes = quotes; order = kept }

-- The loop at the end of `Put`.
unfoldable pub evict :
    ℕ → Map Text QuickTradeQuote → List Text → Map Text QuickTradeQuote × List Text
evict max quotes [] = (quotes, [])
evict max quotes (id ∷ ids) = elim (ltb max (length quotes)) [
  | true ↦ evict max (erase id quotes) ids
  | false ↦ (quotes, id ∷ ids)
]

abbrev pub add_id : Text → Option QuickTradeQuote → List Text → List Text
add_id id none ids = ids ++ id ∷ []
add_id id (some _) ids = ids

-- `Put`.
unfoldable pub put : QuickTradeQuote → ℕ → QuoteCache → QuoteCache
unfolding prune evict
put quote now c =
    let p = prune now c in
    let (quotes, order) =
      evict p.max (insert quote.id quote p.quotes)
        (add_id quote.id (lookup quote.id p.quotes) p.order) in
    record p { quotes = quotes; order = order }

-- `Get`: the quote, and the cache that was pruned.
unfoldable pub get : Text → Text → ℕ → QuoteCache → Option QuickTradeQuote × QuoteCache
unfolding prune
get id identity now c =
    let p = prune now c in
    (
      elim (lookup id p.quotes) [
        | none ↦ none
        | some quote ↦ if same quote.identity identity then some quote else none
      ],
      p,
    )
