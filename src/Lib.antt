-- ===== src/Lib.antt =====
-- VenueWire connects a trading console to the exchanges Bybit and Deribit. This development is
-- about the parts of it that decide: which trades are made, how a wire message is written and
-- read, and what an order book shows.
--
-- Intent is internal/intent. `Intent.Types` has the records of store.go and quicktrade.go, one
-- field for each field. A `time.Time` is nanoseconds since the epoch. `Intent.Disk` is `Store.Load`
-- and `Store.update`: what the operating system answers (the lock, the write, the rename, the
-- context, the clock) is an `Env`, which a theorem takes as an arbitrary argument. Every operation
-- of the store hands a function on snapshots to `update`, so each is modelled twice, as that
-- function and as the call: `Intent.Plans` has the plans and the cursors (`SavePlan`, `Claim`,
-- `Finish`, `SetCursor`), `Intent.Status` the state machine of a trade (`applyTradeStatus`),
-- `Intent.Confirm` is `ConfirmQuickTrade` with its validation and quotas, and `Intent.Trades` has
-- `MarkQuickTradeDispatching`, `UpdateQuickTrade` and the reads. `Intent.Evolution` says what no
-- call may change. `Intent.History` is the store under any sequence of calls; the file lock makes
-- the calls of all processes one sequence.
--
-- Fix is internal/fix: `Fix.Bytes` and `Fix.Decimal` are what the package uses of Go's `bytes` and
-- `strconv`, `Fix.Codec` is codec.go and `Fix.Framer` is framer.go. An `int` has 64 bits: `atoi`
-- refuses what is out of range, and the sums of `nextFrame` wrap around. The loop of `Feed` runs on
-- fuel, one round more than there are bytes in the buffer; every frame takes a byte at least, so
-- that `no_fuel` is never the answer. An index or a slice out of range is the value `panics`.
--
-- `Fix.Session` is session.go. A connection is a record (`Conn`) with the two sequence numbers, the
-- flags and the times; `Handling` has one function for each case of the `select` of `runOnce`, and
-- `run_events` is the loop over any list of events: messages, ticks, a cancelled context, a broken read,
-- and `SendApplication` from other goroutines, which the write lock puts between two of these steps or,
-- in a tick, between the heartbeat and the test request; whether a heartbeat is due and its sending are
-- one step. The clock, the transport's answers and the callbacks come with each event. `Reconnect` is
-- `Run`: a list of attempts, with the waits between them. `sent` and `delivered` are histories that the
-- theorems speak about; a message that was cut off by a failed write is not in `sent`. The numbers are
-- natural numbers, far below 2^63 messages; durations are so short that their multiples do not overflow.
-- `ToLower` is a parameter.
--
-- `Fix.Orders` is orders.go: a `Router` holds the connection of its session and the snapshot of its
-- order state, and each operation leaves a router and maybe an error. `Fix.Orders.Router` sends orders,
-- cancels and amendments, `Fix.Orders.Reports` is `HandleMessage`. The clock stands still during a call;
-- whether the order state can be saved comes with the call. The order state is the router's snapshot:
-- that `mutate` reads the file again, which another process may have changed, is not modelled.
--
-- Deribit is internal/deribit/book.go, the order book that is kept from the stream of updates. A
-- `float64` that JSON decoding makes is an element of a type with equality and a total order, the
-- record `Floats`, since the code only compares such numbers. `Levels`, which sorts the two sides
-- for display, is not modelled.
--
-- OrderState is internal/orderstate with the records of internal/domain: `OrderState.Transitions`
-- is `ValidateTransition`, `OrderState.Accounts` the keys under which orders and executions are
-- stored, `OrderState.Service` and `OrderState.Filling` what `Service` does to its snapshot. The
-- order of the association list `orders` is the order in which Go happens to walk the map. What the
-- code uses of `big.Rat` is the record `Rationals`, since no theorem depends on its arithmetic.
--
-- Events is internal/runtimeevent/broker.go: `Events.Broker` has the broker, a channel being the list
-- of the events that wait in it with its capacity, and `Events.Delivery` what a subscriber can rely on.
--
-- QuickTrade is internal/quicktrade: `QuickTrade.Cache` is `QuoteCache` and `QuickTrade.Application`
-- is `Application.Confirm` of application.go, which calls the store of Intent and then the venue.
-- Between two calls of the store other processes may change the file: each call has a `Turn` with a
-- function on files for that. `QuickTrade.Quote` is quote.go: `Create` makes a quote and `Validate`
-- is `ValidateForConfirm`, which the confirmation runs again; `QuickTrade.Reviewed` puts the two
-- together. A non-negative `big.Rat` is a numerator over a positive denominator (Prelude.Ratio), not
-- reduced, and compared across; `big.Rat.SetString` and `strings.ToUpper` are the record `Library`,
-- and a venue's `Provider` is the record of what it answers.
--
-- Prelude has the shared types and lemmas: lists and comparisons on native numbers, Go strings as
-- lists of code points, `(value, error)` pairs as `Result`, Go maps as association lists, signed
-- integers. The runs on concrete data stand in Tests.
--
-- Not modelled are the planner of internal/intent/planner.go, which makes and executes the plans that
-- the store keeps against a market client, the network clients, the Deribit FIX session, the HTTP server
-- and the web page, and the packages that reconcile, value and display accounts; of the order state, its
-- file store, which works as that of the intents.
pub mod Prelude
pub mod Intent
pub mod Fix
pub mod Deribit
pub mod OrderState
pub mod Events
pub mod QuickTrade
mod Tests
