-- ===== src/Fix/Orders/Recording/Executions.antt =====
-- What the executions of a report leave in the order state.
use venuewire.Prelude.{
  ◌≡◌, ◌∙◌, ◌⊎◌, refl, sym, subst, inl, inr, Bool, Option, none, some, List, [], ◌∷◌, All, Text,
  text_eq, ok, Bool-cases, Option-cases, Result-cases, arith,
}
use venuewire.Prelude.Map.{
  lookup, insert, lookup-insert_self, lookup-insert_new, lookup-insert_cases, Map,
}
use venuewire.OrderState.Types.{Execution, Snapshot}
use venuewire.OrderState.Accounts.{execution_storage_key}
use venuewire.OrderState.Filling.{Rationals, record_execution}
use venuewire.Fix.Orders.Types.{Router, RouterError, Library}
use venuewire.Fix.Orders.Reports.{record_all}

-- An execution under the key.
abbrev pub IsRecorded : Snapshot → Execution → Type 0
IsRecorded s e = (e' : Execution) × (lookup (execution_storage_key e) s.executions ≡ some e')

-- An execution of a list, under its key.
abbrev pub IsAmong : Text → Execution → List Execution → Type 0
IsAmong k f [] = ⊥
IsAmong k f (e ∷ es) = ((k ≡ execution_storage_key e) × (f ≡ e)) ⊎ IsAmong k f es

-- No execution is lost or changed.
abbrev pub IsKept : Map Text Execution → Map Text Execution → Type 0
IsKept before after =
    (k : Text) (f : Execution) → lookup k before ≡ some f → lookup k after ≡ some f

-- What is new among the executions is of the list.
abbrev pub IsAdded : List Execution → Map Text Execution → Map Text Execution → Type 0
IsAdded es before after =
    (k : Text) (f : Execution)
    → lookup k after ≡ some f
    → (lookup k before ≡ some f) ⊎ IsAmong k f es

module _ (num : Rationals) (lib : Library) where
  record_execution-cases :
      (e : Execution) (s : Snapshot) {s' : Snapshot}
      → record_execution num e s ≡ ok s'
      → ((e' : Execution) × (lookup (execution_storage_key e) s.executions ≡ some e')
          × (s.executions ≡ s'.executions))
        ⊎ ((lookup (execution_storage_key e) s.executions ≡ none)
            × (insert (execution_storage_key e) e s.executions ≡ s'.executions))
  unfolding record_execution
  record_execution-cases e s {s'} h =
      elim (Option-cases (lookup (execution_storage_key e) s.executions)) [
        | inl fresh ↦ inr (fresh, ground arith)
        | inr (e', there) ↦ inl (e', there, ground arith)
      ]

  record_execution-orders :
      (e : Execution) (s : Snapshot) {s' : Snapshot}
      → record_execution num e s ≡ ok s'
      → s'.orders ≡ s.orders
  unfolding record_execution
  record_execution-orders e s {s'} h = ground arith

  record_execution-IsAdded :
      (e : Execution) (s : Snapshot) {s' : Snapshot}
      → record_execution num e s ≡ ok s'
      → (k : Text) (f : Execution) → lookup k s'.executions ≡ some f
      → (lookup k s.executions ≡ some f) ⊎ ((k ≡ execution_storage_key e) × (f ≡ e))
  record_execution-IsAdded e s {s'} h k f there = elim (record_execution-cases e s h) [
    | inl (e', seen, keeps) ↦ inl (rw keeps there)
    | inr (fresh, adds) ↦
        let there' : lookup k (insert (execution_storage_key e) e s.executions) ≡ some f =
          rw adds there in
        elim (lookup-insert_cases (execution_storage_key e) k e s.executions there') [
          | inl (same_key, same_value) ↦ inr (sym same_key, sym same_value)
          | inr (other, old) ↦ inl old
        ]
  ]

  record_execution-IsRecorded :
      (e : Execution) (s : Snapshot) {s' : Snapshot}
      → record_execution num e s ≡ ok s'
      → IsRecorded s' e
  record_execution-IsRecorded e s {s'} h = elim (record_execution-cases e s h) [
    | inl (e', there, keeps) ↦ (e', rw (← keeps) there)
    | inr (fresh, adds) ↦
        (e, rw (← adds) (lookup-insert_self (execution_storage_key e) e s.executions))
  ]

  record_execution-keeps :
      (e : Execution) (s : Snapshot) {s' : Snapshot}
      → record_execution num e s ≡ ok s'
      → IsKept s.executions s'.executions
  record_execution-keeps e s {s'} h k f old = elim (record_execution-cases e s h) [
    | inl (e', there, keeps) ↦ rw (← keeps) old
    | inr (fresh, adds) ↦
        rw (← adds) (lookup-insert_new (execution_storage_key e) k e f s.executions fresh old)
  ]

  pub record_all-keeps :
      (saved : Bool) (es : List Execution) (r : Router)
      → IsKept r.state.executions (record_all num lib saved es r).0.state.executions
  unfolding record_all
  record_all-keeps saved [] r k f h = h
  record_all-keeps saved (e ∷ es) r k f h = elim (Result-cases (record_execution num e r.state)) [
    | inl (why, failed) ↦ rw (failed, record_all) h
    | inr (s, fine) ↦ elim (Bool-cases saved) [
      | inr lost ↦ rw (fine, lost, record_all) h
      | inl kept ↦
          rw (fine, kept, record_all)
            (record_all-keeps saved es (record r { state = s }) k f
              (record_execution-keeps e r.state fine k f h))
    ]
  ]

  pub record_all-All :
      (saved : Bool) (es : List Execution) (r : Router)
      → (record_all num lib saved es r).1 ≡ none
      → All (λ e. IsRecorded (record_all num lib saved es r).0.state e) es
  unfolding record_all
  record_all-All saved [] r h = tt
  record_all-All saved (e ∷ es) r h = elim (Result-cases (record_execution num e r.state)) [
    | inl (why, failed) ↦ absurd (ground arith)
    | inr (s, fine) ↦ elim (Bool-cases saved) [
      | inr lost ↦ absurd (ground arith)
      | inl kept ↦
          let r1 : Router = record r { state = s } in
          let rest : (record_all num lib saved es r1).1 ≡ none = rw (fine, kept, record_all) at h in
          let goes : record_all num lib saved (e ∷ es) r ≡ record_all num lib saved es r1 =
            rw (fine, kept, record_all) refl in
          let (e', there) = record_execution-IsRecorded e r.state fine in
          subst (λ (x : Router × Option RouterError). All (λ f. IsRecorded x.0.state f) (e ∷ es))
            (sym goes)
            (
              (e', record_all-keeps saved es r1 (execution_storage_key e) e' there),
              record_all-All saved es r1 rest,
            )
    ]
  ]

  pub record_all-orders :
      (saved : Bool) (es : List Execution) (r : Router)
      → (record_all num lib saved es r).0.state.orders ≡ r.state.orders
  unfolding record_all
  record_all-orders saved [] r = refl
  record_all-orders saved (e ∷ es) r = elim (Result-cases (record_execution num e r.state)) [
    | inl (why, failed) ↦ rw (failed, record_all) refl
    | inr (s, fine) ↦ elim (Bool-cases saved) [
      | inr lost ↦ rw (fine, lost, record_all) refl
      | inl kept ↦
          rw (fine, kept, record_all)
            (record_all-orders saved es (record r { state = s })
              ∙ record_execution-orders e r.state fine)
    ]
  ]

  pub record_all-IsAdded :
      (saved : Bool) (es : List Execution) (r : Router)
      → IsAdded es r.state.executions (record_all num lib saved es r).0.state.executions
  unfolding record_all
  record_all-IsAdded saved [] r = λ k f h. inl h
  record_all-IsAdded saved (e ∷ es) r = elim (Result-cases (record_execution num e r.state)) [
    | inl (why, failed) ↦ rw (failed, record_all) (λ k f h. inl h)
    | inr (s, fine) ↦ elim (Bool-cases saved) [
      | inr lost ↦ rw (fine, lost, record_all) (λ k f h. inl h)
      | inl kept ↦
          rw (fine, kept, record_all)
            (λ k f h. elim (record_all-IsAdded saved es (record r { state = s }) k f h) [
              | inr among ↦ inr (inr among)
              | inl old ↦ elim (record_execution-IsAdded e r.state fine k f old) [
                | inl older ↦ inl older
                | inr this ↦ inr (inl this)
              ]
            ])
    ]
  ]
