-- ===== src/Intent/Disk/Atomic.antt =====
-- An update is all or nothing.
use venuewire.Prelude.{◌≡◌, refl, ◌⊎◌, inl, inr, false, none, some, arith, Result, ok, Result-cases}
use venuewire.Intent.Types.{Snapshot, Fault}
use venuewire.Intent.Disk.{File, stored, Env, load, update, open_locked, replace_file, finish}

open_locked-ok :
    (env : Env) (file : File) {s : Snapshot} → open_locked env file ≡ ok s → load false file ≡ ok s
unfolding open_locked
open_locked-ok env file h = ground arith

replace_file_cases :
    {A : Type 0} (env : Env) (file : File) (s : Snapshot) (a : A)
    → let out = replace_file env file (s, a) in
      ((e : Fault) × (out.fault ≡ some e) × (out.file ≡ file))
      ⊎ (out ≡ record {
        file = stored (record s { updated_at = env.clock });
        value = some a;
        fault = none;
      })
unfolding replace_file
replace_file_cases env file s a = ground arith

-- An update either reports an error and leaves the file as it was, or replaces the file by what
-- the mutation makes of the loaded snapshot.
pub update_cases :
    {A : Type 0} (env : Env) (file : File) (mutate : Snapshot → Result Fault (Snapshot × A))
    → let out = update env file mutate in
      ((e : Fault) × (out.fault ≡ some e) × (out.file ≡ file))
      ⊎ ((s : Snapshot) × (s' : Snapshot) × (a : A) × (load false file ≡ ok s)
          × (mutate s ≡ ok (s', a))
          × (out ≡ record {
            file = stored (record s' { updated_at = env.clock });
            value = some a;
            fault = none;
          }))
unfolding update
update_cases env file mutate = elim (Result-cases (open_locked env file)) [
  | inl (e, shut) ↦ rw (shut, finish) (inl (e, refl, refl))
  | inr (s, opened) ↦ elim (Result-cases (mutate s)) [
    | inl (e, refused) ↦ rw (opened, refused) (inl (e, refl, refl))
    | inr ((s', a), made) ↦ elim (replace_file_cases env file s' a) [
      | inl failed ↦ rw (opened, made) (inl failed)
      | inr done ↦ rw (opened, made) (inr (s, s', a, open_locked-ok env file opened, made, done))
    ]
  ]
]
