-- ===== src/Tests/SweepRuns.antt =====
-- The theorems on the sweep of temp files, on a machine that lists its directory.
use secret_manager.Base.{
  ◌≡◌, refl, ◌↔◌, true, false, some, [], ◌∷◌, arith, All, replicate, Bytes, Text, bytes, text_eq,
  ◌≢◌, ap,
}
use secret_manager.Vault.Os.{FilePath, DirEntry, Os, OsLaws}
use secret_manager.Vault.Publish.{temp_path}
use secret_manager.Vault.Sweep.{is_write_atomic_temp_name, sweep_temp_files}
use secret_manager.Vault.Sweep.Shape.{IsTempName, is_write_atomic_temp_name_iff, IsByte}
use secret_manager.Vault.Sweep.Spares.{sweep_temp_files_spares}
use secret_manager.Tests.Disk.{Machine, machine, machine_laws, file}
use secret_manager.Vault.Store.Remove.{delete_file, delete_file_spares}
use secret_manager.Tests.Vaults.{home, fresh}

abbrev suffix : Bytes
suffix = replicate 8 7

suffix_bytes : All IsByte suffix
suffix_bytes = (b7, (b7, (b7, (b7, (b7, (b7, (b7, (b7, tt))))))))
  where
    b7 : IsByte 7
    b7 = omega arith

is_write_atomic_temp_name_iff_example :
    (is_write_atomic_temp_name (temp_path home suffix).name ≡ true)
    ↔ IsTempName (temp_path home suffix).name
is_write_atomic_temp_name_iff_example = is_write_atomic_temp_name_iff (temp_path home suffix).name

-- The machine of the tests, with a directory that holds a vault and a leftover.
abbrev listed : Text → DirEntry
listed name = record { name = some name; is_file = some true; age = some 900 }

abbrev listing : Os Machine
listing = record machine {
  read_dir = λ d m. some (listed home.name ∷ listed (temp_path home suffix).name ∷ []);
}

listing_laws : OsLaws listing file
listing_laws = record {
  random_same = machine_laws.random_same;
  now_same = machine_laws.now_same;
  new_uuid_same = machine_laws.new_uuid_same;
  create_dir_same = machine_laws.create_dir_same;
  set_dir_mode_same = machine_laws.set_dir_mode_same;
  create_new-ok = machine_laws.create_new-ok;
  create_new-err = machine_laws.create_new-err;
  write_all-ok = machine_laws.write_all-ok;
  write_all_same = machine_laws.write_all_same;
  sync_all_same = machine_laws.sync_all_same;
  sync_dir_same = machine_laws.sync_dir_same;
  rename-ok = machine_laws.rename-ok;
  rename-err = machine_laws.rename-err;
  remove_file_same = machine_laws.remove_file_same;
  read-ok = machine_laws.read-ok;
  file_len-ok = machine_laws.file_len-ok;
}

home_kept : is_write_atomic_temp_name home.name ≡ false
unfolding is_write_atomic_temp_name text_eq
home_kept = refl

abbrev littered : Machine
littered = record { disk = λ p. some (bytes "x"); clock = 7 }

sweep_temp_files_spares_example :
    file (sweep_temp_files listing home.dir 300 littered).1 home ≡ file littered home
sweep_temp_files_spares_example =
    sweep_temp_files_spares listing file listing_laws home home_kept home.dir 300 littered

abbrev work : FilePath
work = record { dir = bytes "vaults"; name = bytes "work.vault" }

work_kept : is_write_atomic_temp_name work.name ≡ false
unfolding is_write_atomic_temp_name text_eq
work_kept = refl

work_other : work ≢ fresh.path
work_other same =
    let n : bytes "work.vault" ≡ bytes "login.vault" = ap (λ (p : FilePath). p.name) same in cc

delete_file_spares_example : file (delete_file listing fresh littered).1 work ≡ file littered work
delete_file_spares_example =
    delete_file_spares listing file listing_laws work work_kept fresh littered work_other
