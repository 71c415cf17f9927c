-- ===== src/Vault/Sweep.antt =====
-- The sweep of temp files that an interrupted save left behind, vault/store.rs.
pub mod Shape
pub mod Spares
use secret_manager.Base.{
  ℕ, ◌+◌, ◌-◌, ◌*◌, Bool, true, false, not, ◌&&◌, ◌||◌, Option, none, some, List, [], ◌∷◌, leb,
  ◌==◌, if◌then◌else◌, length, is_empty, take, drop, all, Text, bytes, text_eq, ok, err,
}
use secret_manager.Vault.Os.{DirEntry, Io, Os}

-- `str::strip_suffix`
unfoldable pub strip_suffix : Text → Text → Option Text
strip_suffix suffix s =
    let cut = length s - length suffix in
    if leb (length suffix) (length s) && text_eq (drop cut s) suffix
    then some (take cut s)
    else none

-- `str::rsplit_once` at a byte: before and behind its last occurrence.
abbrev pub split_head : ℕ → ℕ → Text → Option (Text × Text) → Option (Text × Text)
split_head b x rest (some (front, back)) = some (x ∷ front, back)
split_head b x rest none = if x == b then some ([], rest) else none

unfoldable pub rsplit_once : ℕ → Text → Option (Text × Text)
rsplit_once b [] = none
rsplit_once b (x ∷ rest) = split_head b x rest (rsplit_once b rest)

abbrev pub is_lower_hex : ℕ → Bool
is_lower_hex b = (leb b'0' b && leb b b'9') || (leb b'a' b && leb b b'f')

unfoldable pub is_vault_stem : Text → Bool
unfolding strip_suffix
is_vault_stem stem = elim (strip_suffix (bytes ".vault") stem) [
  | none ↦ false
  | some base ↦ not (is_empty base)
]

unfoldable pub is_temp_split : Option (Text × Text) → Bool
unfolding is_vault_stem
is_temp_split none = false
is_temp_split (some (stem, hex)) =
    is_vault_stem stem && ((length hex == 16) && all is_lower_hex hex)

unfoldable pub is_write_atomic_temp_name : Text → Bool
unfolding is_temp_split rsplit_once strip_suffix
is_write_atomic_temp_name name = elim (strip_suffix (bytes ".tmp") name) [
  | none ↦ false
  | some rest ↦ is_temp_split (rsplit_once b'.' rest)
]

-- An unreadable timestamp and one in the future count as stale.
unfoldable pub is_stale : ℕ → Option ℕ → Bool
is_stale min_age none = true
is_stale min_age (some age) = leb min_age age

abbrev pub named_temp : Option Text → Bool
named_temp none = false
named_temp (some name) = is_write_atomic_temp_name name

abbrev pub known_file : Option Bool → Bool
known_file none = false
known_file (some b) = b

-- Whether the sweep tries to remove an entry.
unfoldable pub is_doomed : ℕ → DirEntry → Bool
unfolding is_stale is_write_atomic_temp_name
is_doomed min_age e = named_temp e.name && (known_file e.is_file && is_stale min_age e.age)

abbrev pub entry_name : Option Text → Text
entry_name none = []
entry_name (some name) = name

module _ {World : Type 0} (os : Os World) where
  count_removed : ℕ → Io World → ℕ × World
  count_removed n (ok _, w) = (n + 1, w)
  count_removed n (err e, w) = (n, w)

  unfoldable pub sweep_entry : Text → DirEntry → ℕ → World → ℕ × World
  unfolding count_removed
  sweep_entry dir e n w =
      count_removed n (os.remove_file (record { dir = dir; name = entry_name e.name }) w)

  unfoldable pub sweep_entries : Text → ℕ → List DirEntry → ℕ → World → ℕ × World
  unfolding sweep_entry is_doomed
  sweep_entries dir min_age [] n w = (n, w)
  sweep_entries dir min_age (e ∷ rest) n w =
      let (n', w') = if is_doomed min_age e then sweep_entry dir e n w else (n, w) in
      sweep_entries dir min_age rest n' w'

  unfoldable pub sweep_temp_files : Text → ℕ → World → ℕ × World
  unfolding sweep_entries
  sweep_temp_files dir min_age w = elim (os.read_dir dir w) [
    | none ↦ (0, w)
    | some entries ↦ sweep_entries dir min_age entries 0 w
  ]

abbrev pub stale_temp_age : ℕ
stale_temp_age = 5 * 60

unfoldable pub sweep_stale_temp_files : {World : Type 0} → Os World → Text → World → ℕ × World
unfolding sweep_temp_files
sweep_stale_temp_files os dir w = sweep_temp_files os dir stale_temp_age w
