-- ===== src/Tests/AliasRuns.antt =====
-- The theorems on the alias table, at concrete inputs.
use secret_manager.Base.{
  ℕ, ◌≡◌, refl, ◌≢◌, ◌⊎◌, Option, none, some, [], ◌∷◌, Bytes, Text, bytes, text_eq, Result, ok, err,
}
use secret_manager.Base.Maps.{get}
use secret_manager.Dbus.Aliases.{
  AliasError, Table, AliasTable, usable, degraded, known, writable, resolve, degrade, OnWriteError,
  keep, refuse, AliasUpdate, committed, Shared, update_aliases, save_aliases_to,
}
use secret_manager.Dbus.Aliases.Resolve.{resolve-degrade}
use secret_manager.Dbus.Aliases.Update.{Commit, update_aliases-Commit}
use secret_manager.Dbus.Aliases.Quiet.{Done, Failed, update_aliases-quiet}
use secret_manager.Tests.Disk.{Machine, machine, machine_laws, file, on_machine}
use secret_manager.Tests.Vaults.{start}

abbrev table : Table
table = (bytes "default", bytes "login") ∷ []

abbrev changed : Table
changed = (bytes "default", bytes "work") ∷ []

resolve-degrade_example :
    (((id : Text) × (get (known (usable table)) (bytes "default") ≡ some id)
        × (resolve (degrade (bytes "bad") (usable table)) (bytes "default") ≡ ok (some id)))
      ⊎ ((get (known (usable table)) (bytes "default") ≡ none)
          × (resolve (degrade (bytes "bad") (usable table)) (bytes "default") ≡ err (bytes "bad"))))
    × (resolve (degrade (bytes "bad") (usable table)) (bytes "default") ≢ ok none)
    × (writable (degrade (bytes "bad") (usable table)) ≡ err (bytes "bad"))
resolve-degrade_example = resolve-degrade (usable table) (bytes "bad") (bytes "default")

abbrev to_toml : Table → Option Bytes
to_toml t = some (bytes "[aliases]")

abbrev shared : Shared Machine (Unit {0})
shared = record { aliases = usable table; rest = tt; world = start }

abbrev edit : Shared Machine (Unit {0}) → Table → Result (Unit {0}) Table
edit s t = ok changed

abbrev still : ℕ → Shared Machine (Unit {0}) → Shared Machine (Unit {0})
still n s = s

update_aliases-quiet_example :
    let r = update_aliases machine to_toml (bytes "d") refuse edit still shared in
    let w = (save_aliases_to machine to_toml (bytes "d") changed start).1 in
    Done machine file machine_laws to_toml (bytes "d") refuse edit still shared changed w r
    ⊎ Failed machine file machine_laws to_toml (bytes "d") refuse edit still shared changed w r
unfolding writable
update_aliases-quiet_example =
    update_aliases-quiet machine file machine_laws to_toml (bytes "d") refuse edit still shared
      table changed (λ n s. refl) refl refl

commits : (update_aliases machine to_toml (bytes "d") refuse edit still shared).0 ≡ committed
unfolding update_aliases text_eq on_machine save_aliases_to
    secret_manager.Vault.Publish.atomic_write secret_manager.Vault.Publish.ensure_vault_dir
    secret_manager.Vault.Publish.temp_path secret_manager.Vault.Publish.hex
    secret_manager.Dbus.Aliases.table_eq writable
commits = refl

update_aliases-Commit_example :
    Commit machine to_toml
      (bytes "d")
      refuse
      edit
      still
      (update_aliases machine to_toml (bytes "d") refuse edit still shared).1
update_aliases-Commit_example =
    update_aliases-Commit machine to_toml (bytes "d") refuse edit still shared commits
