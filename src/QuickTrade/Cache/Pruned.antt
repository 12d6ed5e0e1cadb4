-- ===== src/QuickTrade/Cache/Pruned.antt =====
-- What `prune` leaves.
use venuewire.Prelude.{
  ℕ, ◌<◌, ◌≡◌, refl, ap, sym, ◌∙◌, subst, inl, inr, true, false, none, some, List, [], ◌∷◌, leb,
  Text, text_eq, Bool-cases, Option-cases, arith,
}
use venuewire.Prelude.Map.{lookup, erase}
use venuewire.Intent.Types.{QuickTradeQuote}
use venuewire.QuickTrade.Cache.{prune_loop}
use venuewire.QuickTrade.Cache.Listed.{
  Quotes, listed, lookup-erase_cases, listed-tail, listed_cases, listed-head, listed-rest,
}

prune_gone :
    (now : ℕ) (quotes : Quotes) (id : Text) (ids : List Text)
    → lookup id quotes ≡ none
    → prune_loop now quotes (id ∷ ids) ≡ prune_loop now quotes ids
unfolding prune_loop
prune_gone now quotes id ids h = rw (h, prune_loop) refl

prune_expired :
    (now : ℕ) (quotes : Quotes) (id : Text) (ids : List Text) (q : QuickTradeQuote)
    → lookup id quotes ≡ some q
    → leb q.expires_at now ≡ true
    → prune_loop now quotes (id ∷ ids) ≡ prune_loop now (erase id quotes) ids
unfolding prune_loop
prune_expired now quotes id ids q h e = rw (h, prune_loop) (rw e refl)

prune_live :
    (now : ℕ) (quotes : Quotes) (id : Text) (ids : List Text) (q : QuickTradeQuote)
    → lookup id quotes ≡ some q
    → leb q.expires_at now ≡ false
    → prune_loop now quotes (id ∷ ids)
      ≡ ((prune_loop now quotes ids).0, id ∷ (prune_loop now quotes ids).1)
unfolding prune_loop
prune_live now quotes id ids q h e = rw (h, prune_loop) (rw e refl)

-- What a quote that `prune` left says: it was there, and where it was listed it has not expired and
-- is still listed.
abbrev pub IsLeft : ℕ → Quotes → List Text → Quotes × List Text → Type 0
IsLeft now quotes ids out =
    (j : Text) (q : QuickTradeQuote)
    → lookup j out.0 ≡ some q
    → (lookup j quotes ≡ some q)
      × (listed j ids ≡ true → (now < q.expires_at) × (listed j out.1 ≡ true))

live-IsLeft :
    (now : ℕ) (quotes : Quotes) (id : Text) (ids : List Text) (q : QuickTradeQuote)
    (out : Quotes × List Text)
    → lookup id quotes ≡ some q
    → leb q.expires_at now ≡ false
    → IsLeft now quotes ids out
    → IsLeft now quotes (id ∷ ids) (out.0, id ∷ out.1)
live-IsLeft now quotes id ids q out there live left j q' found =
    let (old, f) = left j q' found in
    (
      old,
      λ h. elim (listed_cases j id ids h) [
        | inl here ↦
            let both : some q ≡ some q' = sym there ∙ (ap (λ x. lookup x quotes) here ∙ old) in
            let eq : q ≡ q' = cc both in
            let early : now < q.expires_at = ground arith in
            (
              subst (λ x. now < x.expires_at) eq early,
              subst (λ x. listed x (id ∷ out.1) ≡ true) here (listed-head id out.1),
            )
        | inr rest ↦ let (early, still) = f rest in (early, listed-rest j id out.1 still)
      ],
    )

pub prune_loop-IsLeft :
    (now : ℕ) (quotes : Quotes) (ids : List Text)
    → IsLeft now quotes ids (prune_loop now quotes ids)
prune_loop-IsLeft now quotes [] = unfold prune_loop listed in (λ j q found. (found, λ h. cc h))
prune_loop-IsLeft now quotes (id ∷ ids) = elim (Option-cases (lookup id quotes)) [
  | inl gone ↦ rw (prune_gone now quotes id ids gone) (λ j q found.
      let (old, f) = prune_loop-IsLeft now quotes ids j q found in
      (
        old,
        λ h. elim (listed_cases j id ids h) [
          | inl here ↦ absurd (cc (ap (λ x. lookup x quotes) here))
          | inr rest ↦ f rest
        ],
      ))
  | inr (q0, there) ↦ elim (Bool-cases (leb q0.expires_at now)) [
    | inl late ↦ rw (prune_expired now quotes id ids q0 there late) (λ j q found.
        let (erased, f) = prune_loop-IsLeft now (erase id quotes) ids j q found in
        let (ne, old) = lookup-erase_cases id j quotes erased in
        (old, λ h. f (listed-tail j id ids h ne)))
    | inr live ↦ rw (prune_live now quotes id ids q0 there live) (
        live-IsLeft now quotes id ids q0 (prune_loop now quotes ids) there live
          (prune_loop-IsLeft now quotes ids))
  ]
]
