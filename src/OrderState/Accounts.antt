-- ===== src/OrderState/Accounts.antt =====
-- Accounts and storage keys: internal/domain/identity.go and the helpers of
-- internal/orderstate/service.go.
use venuewire.Prelude.{
  ℕ, ◌+◌, ◌-◌, ◌/◌, ◌%◌, Bool, not, ◌&&◌, ◌||◌, List, [], ◌∷◌, ◌++◌, leb, ltb, ◌==◌, if◌then◌else◌,
  Text, codes, same, is_empty, trim_space,
}
use venuewire.OrderState.Types.{Order, Execution, AccountKey}

-- The bytes of a code point in UTF-8.
unfoldable pub utf8 : ℕ → List ℕ
utf8 c =
    if ltb c 0x80
    then c ∷ []
    else if ltb c 0x800
    then (0xC0 + c / 64) ∷ (0x80 + c % 64) ∷ []
    else if ltb c 0x10000
    then (0xE0 + c / 4096) ∷ (0x80 + c / 64 % 64) ∷ (0x80 + c % 64) ∷ []
    else (0xF0 + c / 262144) ∷ (0x80 + c / 4096 % 64) ∷ (0x80 + c / 64 % 64) ∷ (0x80 + c % 64) ∷ []

abbrev hex : ℕ → ℕ
hex n = if ltb n 10 then b'0' + n else b'A' + (n - 10)

-- The bytes that `url.QueryEscape` keeps.
abbrev is_unreserved : ℕ → Bool
is_unreserved c =
    (leb b'a' c && leb c b'z')
    || (leb b'A' c && leb c b'Z')
    || (leb b'0' c && leb c b'9')
    || c == b'-'
    || c == b'_'
    || c == b'.'
    || c == b'~'

unfoldable pub escape_bytes : List ℕ → Text
escape_bytes [] = []
escape_bytes (c ∷ s) =
    let rest = escape_bytes s in
    if c == b' '
    then b'+' ∷ rest
    else if is_unreserved c
    then c ∷ rest
    else b'%' ∷ hex (c / 16) ∷ hex (c % 16) ∷ rest

-- `url.QueryEscape`.
unfoldable pub query_escape : Text → Text
unfolding utf8 escape_bytes
query_escape [] = []
query_escape (c ∷ s) = escape_bytes (utf8 c) ++ query_escape s

unfoldable pub join_key : List Text → Text
unfolding query_escape
join_key [] = []
join_key (p ∷ []) = query_escape (trim_space p)
join_key (p ∷ q ∷ ps) = query_escape (trim_space p) ++ (b'|' ∷ join_key (q ∷ ps))

-- `AccountKey.Canonical`.
unfoldable pub account_canonical : AccountKey → Text
unfolding join_key
account_canonical k = join_key (k.venue ∷ k.environment ∷ k.alias ∷ [])

-- `OrderKey.Canonical` and `ExecutionKey.Canonical`.
unfoldable pub canonical : AccountKey → Text → Text → Text
unfolding join_key
canonical k namespace native_id = join_key (account_canonical k ∷ namespace ∷ native_id ∷ [])

abbrev or_default : Text → Text → Text
or_default s default = if is_empty s then default else s

unfoldable pub normalized_account : Text → Text → Text → AccountKey
normalized_account exchange environment alias = record {
  venue = or_default exchange (codes "bybit");
  environment = or_default environment (codes "testnet");
  alias = or_default alias (codes "bybit-test");
}

unfoldable pub order_account : Order → AccountKey
unfolding normalized_account
order_account o = normalized_account o.exchange o.environment o.account_alias

unfoldable pub execution_account : Execution → AccountKey
unfolding normalized_account
execution_account e = normalized_account e.exchange e.environment e.account_alias

unfoldable pub same_account : AccountKey → AccountKey → Bool
same_account a b = same a.venue b.venue && same a.environment b.environment && same a.alias b.alias

-- The account whose keys are the bare identifiers.
unfoldable pub is_legacy : AccountKey → Bool
is_legacy a =
    same a.venue (codes "bybit")
    && same a.environment (codes "testnet")
    && same a.alias (codes "bybit-test")

unfoldable pub order_storage_key : Order → Text
unfolding is_legacy canonical
order_storage_key o =
    let client = not (is_empty o.order_link_id) in
    let identifier = if client then o.order_link_id else o.order_id in
    if is_empty identifier
    then []
    else if is_legacy (order_account o)
    then identifier
    else canonical (order_account o) (if client then codes "client" else codes "native") identifier

unfoldable pub execution_storage_key : Execution → Text
unfolding is_legacy canonical
execution_storage_key e =
    if is_legacy (execution_account e)
    then e.execution_id
    else canonical (execution_account e) (codes "trade") e.execution_id
