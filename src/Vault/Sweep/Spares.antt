-- ===== src/Vault/Sweep/Spares.antt =====
-- Which files the sweep leaves alone (`sweep_temp_files`, vault/store.rs).
use secret_manager.Base.{
  ℕ, ◌≡◌, refl, ap, ◌∙◌, inl, inr, true, false, Option, List, [], ◌∷◌, arith, Bool-cases,
  Option-cases, Bytes, Text, ok, err,
}
use secret_manager.Vault.Os.{FilePath, DirEntry, Io, Os, OsLaws}
use secret_manager.Vault.Sweep.{
  is_write_atomic_temp_name, is_doomed, entry_name, sweep_entry, sweep_entries, sweep_temp_files,
  count_removed,
}

is_doomed-named :
    (min_age : ℕ) (e : DirEntry)
    → is_doomed min_age e ≡ true
    → is_write_atomic_temp_name (entry_name e.name) ≡ true
unfolding is_doomed
is_doomed-named min_age e h = elim (Option-cases e.name) [
  | inl n ↦ cc (rw (n, is_doomed) at h)
  | inr (name, n) ↦ ground (arith, n)
]

counted : {World : Type 0} (os : Os World) (n : ℕ) (r : Io World) → (count_removed os n r).1 ≡ r.1
unfolding count_removed
counted os n (ok _, w) = refl
counted os n (err e, w) = refl

module _ {World : Type 0} (os : Os World) (file : World → FilePath → Option Bytes)
    (laws : OsLaws os file) (q : FilePath) (kept : is_write_atomic_temp_name q.name ≡ false) where
  entry_spares :
      (dir : Text) (e : DirEntry) (n : ℕ) (w : World)
      → is_write_atomic_temp_name (entry_name e.name) ≡ true
      → file (sweep_entry os dir e n w).1 q ≡ file w q
  unfolding sweep_entry
  entry_spares dir e n w named =
      let p : FilePath = record { dir = dir; name = entry_name e.name } in
      ap (λ u. file u q) (counted os n (os.remove_file p w))
      ∙ laws.remove_file_same p w q
          λ same. cc (ap (λ (x : FilePath). is_write_atomic_temp_name x.name) same, kept, named)

  entries_spare :
      (dir : Text) (min_age : ℕ) (list : List DirEntry) (n : ℕ) (w : World)
      → file (sweep_entries os dir min_age list n w).1 q ≡ file w q
  unfolding sweep_entries
  entries_spare dir min_age [] n w = refl
  entries_spare dir min_age (e ∷ rest) n w = elim (Bool-cases (is_doomed min_age e)) [
    | inl d ↦
        let (n', w') = sweep_entry os dir e n w in
        rw (d, sweep_entries)
          (entries_spare dir min_age rest n' w'
            ∙ entry_spares dir e n w (is_doomed-named min_age e d))
    | inr d ↦ rw (d, sweep_entries) (entries_spare dir min_age rest n w)
  ]

  -- A file whose name has not the shape of a temp file's, such as a vault, keeps its content through
  -- a sweep of any directory at any age.
  pub sweep_temp_files_spares :
      (dir : Text) (min_age : ℕ) (w : World)
      → file (sweep_temp_files os dir min_age w).1 q ≡ file w q
  unfolding sweep_temp_files
  sweep_temp_files_spares dir min_age w = elim (Option-cases (os.read_dir dir w)) [
    | inl n ↦ rw (n, sweep_temp_files) refl
    | inr (list, e) ↦ rw (e, sweep_temp_files) (entries_spare dir min_age list 0 w)
  ]
