-- ===== src/Intent/Plans/Claims.antt =====
-- A plan is handed out once.
use venuewire.Prelude.{
  ℕ, ◌+◌, ◌≡◌, refl, ap, sym, ◌∙◌, subst, inl, inr, false, Option, none, some, leb, Text, text_eq,
  ok, err, Bool-cases, Option-cases, arith,
}
use venuewire.Prelude.Map.{lookup, insert, lookup-insert_self}
use venuewire.Intent.Types.{executing, expired, Plan, Snapshot, Fault, not_executable}
use venuewire.Intent.Disk.{File, Env, stored, load, update}
use venuewire.Intent.Disk.Atomic.{update_cases}
use venuewire.Intent.History.Invariant.{load-stored_eq}
use venuewire.Intent.Plans.{is_planned, claim_plan, claim_result, claim}

-- The plan is no longer in the state in which it can be claimed.
abbrev IsTaken : Text → Snapshot → Type 0
IsTaken id s = (p : Plan) × (lookup id s.plans ≡ some p) × (is_planned p.status ≡ false)

claim_plan-IsTaken :
    (id : Text) (now : ℕ) (s : Snapshot) {s' : Snapshot} {o : Option Plan}
    → claim_plan id now s ≡ ok (s', o)
    → IsTaken id s'
unfolding claim_plan
claim_plan-IsTaken id now s {s'} h = elim (Option-cases (lookup id s.plans)) [
  | inl missing ↦ absurd (ground arith)
  | inr (p, found) ↦ elim (Bool-cases (leb p.expires_at now)) [
    | inl late ↦
        let q : Plan = record p { status = expired } in
        let next : record s { plans = insert id q s.plans } ≡ s' = ground arith in
        (q, subst (λ x. lookup id x.plans ≡ some q) next (lookup-insert_self id q s.plans), refl)
    | inr early ↦
        let q : Plan = record p { status = executing; attempt = p.attempt + 1 } in
        let next : record s { plans = insert id q s.plans } ≡ s' = ground arith in
        (q, subst (λ x. lookup id x.plans ≡ some q) next (lookup-insert_self id q s.plans), refl)
  ]
]

claim_plan-refused :
    (id : Text) (now : ℕ) (s : Snapshot)
    → IsTaken id s
    → (e : Fault) × (claim_plan id now s ≡ err e)
unfolding claim_plan
claim_plan-refused id now s (p, found, taken) =
    (not_executable p.status, rw (found, claim_plan) (rw taken refl))

claim_result-fault : (v : Option (Option Plan)) (e : Fault) → (claim_result v (some e)).1 ≡ some e
claim_result-fault none e = refl
claim_result-fault (some none) e = refl
claim_result-fault (some (some p)) e = refl

claim_failed :
    (env : Env) (f : File) (id : Text) (now : ℕ) (s : Snapshot)
    → ((r : Snapshot) → load false f ≡ ok r → r ≡ s)
    → IsTaken id s
    → (e : Fault) × ((claim env f id now).1.1 ≡ some e)
unfolding claim
claim_failed env f id now s only taken = elim (update_cases env f (claim_plan id now)) [
  | inl (e, failed, _) ↦
      (e, rw failed (claim_result-fault (update env f (claim_plan id now)).value e))
  | inr (r, r', o, opened, made, _) ↦
      let (e, refused) =
        claim_plan-refused id now r (subst (IsTaken id) (sym (only r opened)) taken) in
      absurd (ground arith)
]

-- After a claim that reported no error, every further claim of the plan reports one, in any
-- environment and at any time.
pub claim_once :
    (env env' : Env) (f : File) (id : Text) (now now' : ℕ)
    → (claim env f id now).1.1 ≡ none
    → (e : Fault) × ((claim env' (claim env f id now).0 id now').1.1 ≡ some e)
unfolding claim
claim_once env env' f id now now' h = elim (update_cases env f (claim_plan id now)) [
  | inl (e, failed, _) ↦
      let broke = claim_result-fault (update env f (claim_plan id now)).value e in
      let same : some e ≡ none = sym broke ∙ (rw failed at h) in absurd (cc same)
  | inr (s, s', o, opened, made, out) ↦
      let next = record s' { updated_at = env.clock } in
      let taken = claim_plan-IsTaken id now s made in
      rw (ap (λ x. x.file) out)
        (claim_failed env' (stored next) id now' next (λ r h. sym (load-stored_eq next r h)) taken)
]
