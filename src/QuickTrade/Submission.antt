-- ===== src/QuickTrade/Submission.antt =====
-- What is submitted has been stored before.
mod Stored
use venuewire.Prelude.{
  ℕ, ◌≡◌, refl, ap, sym, ◌∙◌, subst, inl, inr, true, false, ◌||◌, none, some, ltb, Text, text_eq,
  ok, Bool-cases, Option-cases, Result-cases, arith,
}
use venuewire.Prelude.Map.{lookup, lookup-insert_self}
use venuewire.Intent.Types.{QuickTrade, QuickTradeQuote, Snapshot}
use venuewire.Intent.Status.{apply_trade_status}
use venuewire.Intent.Disk.{File, Env, load, stored}
use venuewire.Intent.Disk.Atomic.{update_cases}
use venuewire.Intent.Confirm.{
  Confirmation, DemoLimits, is_blank, new_trade, confirm_in, confirm_quick_trade,
}
use venuewire.Intent.Confirm.Cases.{replayed, adopted, created_new, admitted, confirm_in-ok}
use venuewire.Intent.History.Once.{confirm_quick_trade-Accepted}
use venuewire.Intent.Trades.{
  change_trade, dispatch_trade, mark_quick_trade_dispatching, get_quick_trade_by_request,
  get_quick_trade_by_quote,
}
use venuewire.Intent.Trades.Sound.{change_trade-ok, dispatch_trade-Improves}
use venuewire.QuickTrade.Cache.{QuoteCache}
use venuewire.QuickTrade.Application.{
  World, ConfirmRequest, submit_trade, dispatch, create_trade, make_confirmation, review,
  confirm_new, confirm_by_quote, confirm_by_request, confirm, byte_length,
}
use venuewire.QuickTrade.Submission.Stored.{
  IsStored, Creates, dispatch-sent, confirm_quick_trade-Creates,
}

create_trade-sent :
    (w : World) (c : Confirmation) (file : File) {t : QuickTrade} {f : File}
    → (create_trade w c file).sent ≡ some (t, f)
    → (t0 : QuickTrade) × (made : File) × Creates w c t0 made
      × IsStored (w.dispatch.others made) t0.id t f
unfolding create_trade
create_trade-sent w c file {t} {f} h =
    let out = confirm_quick_trade w.create.env (w.create.others file) c w.limits w.now in
    elim (Option-cases out.fault) [
      | inr (e, failed) ↦ elim (Option-cases out.value) [
        | inl nothing ↦ absurd (ground arith)
        | inr (x, some_value) ↦ absurd (ground arith)
      ]
      | inl fine ↦ elim (Option-cases out.value) [
        | inl nothing ↦ absurd (ground arith)
        | inr ((t0, b), handed) ↦ elim (Bool-cases b) [
          | inr old ↦ absurd (ground arith)
          | inl new ↦
              let sent : (dispatch w t0 out.file).sent ≡ some (t, f) = ground arith in
              (
                t0,
                out.file,
                confirm_quick_trade-Creates w c (w.create.others file) fine
                    (handed ∙ ap (λ x. some (t0, x)) new),
                dispatch-sent w t0 out.file sent,
              )
        ]
      ]
    ]

-- A submission comes from a review that passed: of the quote for which the call created the trade,
-- under the ID that it submits.
pub record Sends (w : World) (cache : QuoteCache) (r : ConfirmRequest) (t : QuickTrade) (f : File)
    : Type 0 where
  pub quote : QuickTradeQuote
  pub id : Text
  pub created : QuickTrade
  pub made : File
  pub reviewed : review w cache r ≡ ok (quote, id)
  pub creates : Creates w (make_confirmation r id quote) created made
  pub is_stored : IsStored (w.dispatch.others made) created.id t f

confirm_new-sent :
    (w : World) (cache : QuoteCache) (r : ConfirmRequest) (file : File) {t : QuickTrade} {f : File}
    → (confirm_new w cache r file).sent ≡ some (t, f)
    → Sends w cache r t f
unfolding confirm_new
confirm_new-sent w cache r file {t} {f} h = elim (Result-cases (review w cache r)) [
  | inl (e, refused) ↦ absurd (ground arith)
  | inr ((quote, id), passed) ↦
      let sent : (create_trade w (make_confirmation r id quote) file).sent ≡ some (t, f) =
        ground arith in
      let (t0, made, creates, is_stored) =
        create_trade-sent w (make_confirmation r id quote) file sent in
      record {
        quote = quote;
        id = id;
        created = t0;
        made = made;
        reviewed = passed;
        creates = creates;
        is_stored = is_stored;
      }
]

confirm_by_quote-sent :
    (w : World) (cache : QuoteCache) (r : ConfirmRequest) (file : File) {t : QuickTrade} {f : File}
    → (confirm_by_quote w cache r file).sent ≡ some (t, f)
    → Sends w cache r t f
unfolding confirm_by_quote
confirm_by_quote-sent w cache r file h =
    let g = w.by_quote.others file in
    elim (Result-cases (get_quick_trade_by_quote false g r.quote_id)) [
      | inl (e, failed) ↦ absurd (ground arith)
      | inr (o, read) ↦ elim (Option-cases o) [
        | inr (existing, there) ↦ absurd (ground arith)
        | inl unused ↦ confirm_new-sent w cache r g (ground arith)
      ]
    ]

confirm_by_request-sent :
    (w : World) (cache : QuoteCache) (r : ConfirmRequest) (file : File) {t : QuickTrade} {f : File}
    → (confirm_by_request w cache r file).sent ≡ some (t, f)
    → Sends w cache r t f
unfolding confirm_by_request
confirm_by_request-sent w cache r file h =
    let g = w.by_request.others file in
    elim (Result-cases (get_quick_trade_by_request false g r.identity r.client_request_id)) [
      | inl (e, failed) ↦ absurd (ground arith)
      | inr (o, read) ↦ elim (Option-cases o) [
        | inr (existing, there) ↦ absurd (ground arith)
        | inl unused ↦ confirm_by_quote-sent w cache r g (ground arith)
      ]
    ]

pub confirm-Sends :
    (w : World) (cache : QuoteCache) (r : ConfirmRequest) (file : File) {t : QuickTrade} {f : File}
    → (confirm w cache r file).sent ≡ some (t, f)
    → Sends w cache r t f
unfolding confirm
confirm-Sends w cache r file h =
    elim (Bool-cases (
      is_blank r.identity
      || is_blank r.session_id
      || is_blank r.quote_id
      || is_blank r.client_request_id
      || ltb 128 (byte_length r.client_request_id))) [
        | inl blank ↦ absurd (ground arith)
        | inr given ↦ confirm_by_request-sent w cache r file (rw (given, confirm) at h)
      ]
