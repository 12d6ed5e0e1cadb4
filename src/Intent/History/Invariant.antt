-- ===== src/Intent/History/Invariant.antt =====
-- What is stored stays good under a mutation that keeps it so.
use venuewire.Prelude.{ℕ, ◌≡◌, subst, ◌∙◌, inl, inr, false, arith, text_eq, Result, ok}
use venuewire.Prelude.Int.{pos, ◌≤ℤ◌, eqb_ℤ_iff}
use venuewire.Prelude.Map.{tally}
use venuewire.Intent.Types.{Snapshot, Fault}
use venuewire.Intent.Evolution.{Extends, Extends-refl}
use venuewire.Intent.Disk.{File, absent, stored, Env, load, update}
use venuewire.Intent.Disk.Atomic.{update_cases}
use venuewire.Intent.Confirm.{DemoLimits, is_active}
use venuewire.Intent.Confirm.Indexes.{IsConsistent}

module _ (limits : DemoLimits) where
  abbrev pub IsWithinLimit : Snapshot → Type 0
  IsWithinLimit s = pos (tally is_active s.quick_trades) ≤ℤ limits.max_concurrent_trades

  pub record IsGood (s : Snapshot) : Type 0 where
    pub consistent : IsConsistent s
    pub within : IsWithinLimit s

  -- What is stored is good, wherever the file can be read.
  abbrev pub IsGoodFile : File → Type 0
  IsGoodFile f = (s : Snapshot) → load false f ≡ ok s → IsGood s

  -- Whatever could be read before can be read after, and is extended.
  abbrev pub Later : File → File → Type 0
  Later f f' =
      (s : Snapshot)
      → load false f ≡ ok s
      → (s' : Snapshot) × (load false f' ≡ ok s') × Extends s s'

  -- A mutation that keeps a good snapshot good and extends it.
  abbrev pub Keeps : {A : Type 0} → (Snapshot → Result Fault (Snapshot × A)) → Type 0
  Keeps {A} mutate =
      (s s' : Snapshot) (a : A) → IsGood s → mutate s ≡ ok (s', a) → IsGood s' × Extends s s'

  stamp-IsGood : (s : Snapshot) (clock : ℕ) → IsGood s → IsGood (record s { updated_at = clock })
  stamp-IsGood s clock g = record {
    consistent = record {
      by_request = g.consistent.by_request;
      by_quote = g.consistent.by_quote;
      by_id = g.consistent.by_id;
    };
    within = g.within;
  }

  stamp-Extends :
      (s s' : Snapshot) (clock : ℕ) → Extends s s' → Extends s (record s' { updated_at = clock })
  stamp-Extends s s' clock e = record {
    version = e.version;
    requests = e.requests;
    quotes = e.quotes;
    trades = e.trades;
  }

-- A snapshot that can be read has the version that this code writes.
load-version : (f : File) (s : Snapshot) → load false f ≡ ok s → s.version ≡ pos 1
unfolding load
load-version absent s h = ground arith
load-version (stored r) s h = ground (arith, eqb_ℤ_iff r.version (pos 1))
load-version _ s h = cc

load-stored : (s : Snapshot) → s.version ≡ pos 1 → load false (stored s) ≡ ok s
unfolding load
load-stored s h = rw h

pub load-stored_eq : (r s : Snapshot) → load false (stored r) ≡ ok s → r ≡ s
unfolding load
load-stored_eq r s h = ground arith

module _ (limits : DemoLimits) where
  pub Later-refl : (f : File) → Later limits f f
  Later-refl f s h = (s, h, Extends-refl s)

  pub update_kept :
      {A : Type 0} (env : Env) (f : File) (mutate : Snapshot → Result Fault (Snapshot × A))
      → Keeps limits mutate
      → IsGoodFile limits f
      → IsGoodFile limits (update env f mutate).file × Later limits f (update env f mutate).file
  update_kept env f mutate keeps good = elim (update_cases env f mutate) [
    | inl (_, _, same) ↦ rw same (good, Later-refl f)
    | inr (s, s', a, opened, made, out) ↦
        let (good', extends) = keeps s s' a (good s opened) made in
        let next = record s' { updated_at = env.clock } in
        let readable = load-stored next (extends.version ∙ load-version f s opened) in
        rw out (
          (λ r h.
              let same : next ≡ r = cc in
              subst (IsGood limits) same (stamp-IsGood limits s' env.clock good')),
          (λ r h.
              let same : s ≡ r = cc in
              (
                next,
                readable,
                subst (λ x. Extends x next) same (stamp-Extends limits s s' env.clock extends),
              )),
        )
  ]
