-- ===== src/Dbus/Aliases.antt =====
-- The alias table and its updates, src/dbus/state.rs.
pub mod Resolve
pub mod Update
pub mod Quiet
use secret_manager.Base.{
  ℕ, zero, suc, ◌+◌, ◌-◌, ◌*◌, ◌/◌, ◌%◌, ◌^◌, ◌≤◌, ◌<◌, min, String, ◌≡◌, refl, sym, ap, ◌∙◌,
  fun_ext, ◌≢◌, ◌↔◌, ◌⊎◌, inl, inr, Bool, true, false, not, ◌&&◌, ◌||◌, Option, none, some, List,
  [], ◌∷◌, ◌++◌, map, append_assoc, append-nil, arith, ltb, leb, ◌==◌, if◌then◌else◌, ltb→lt,
  not-ltb→le, le→not-ltb, lt→ltb, ==_iff, tests, Bool-cases, Option-cases, length, is_empty,
  get_elem?, set, take, drop, all, any, All, length-append, append_inj, replicate, take-append,
  drop-append, take-take, drop-take, take-append-length, drop-append-length, take-append-drop,
  length-take, length-drop, length-set, Bytes, Text, bytes, text_eq, text_eq_iff, text_eq_refl,
  Result, ok, err, ◌>>=◌, ◌>>◌, ok_or, map_err, or_else, Result-cases,
}
use secret_manager.Base.Maps.{Map, get, insert_key}
use secret_manager.Vault.Types.{IoError}
use secret_manager.Vault.Os.{FilePath, Io, Os}
use secret_manager.Vault.Publish.{atomic_write, ensure_vault_dir}

-- The text of an `AliasError`, bounded and cleaned where it was made.
abbrev pub AliasError : Type 0
AliasError = Text

abbrev pub Table : Type 0
Table = Map {0} Text

pub data AliasTable : Type 0 where
  usable : Table → AliasTable
  degraded : AliasError → Table → AliasTable

unfoldable pub unusable : AliasTable → Option AliasError
unusable (usable table) = none
unusable (degraded reason known) = some reason

unfoldable pub known : AliasTable → Table
known (usable table) = table
known (degraded reason table) = table

unfoldable pub writable : AliasTable → Result AliasError Table
writable (usable table) = ok table
writable (degraded reason table) = err reason

abbrev pub resolve_known : AliasError → Option Text → Result AliasError (Option Text)
resolve_known reason none = err reason
resolve_known reason (some id) = ok (some id)

unfoldable pub resolve : AliasTable → Text → Result AliasError (Option Text)
resolve (usable table) name = ok (get table name)
resolve (degraded reason table) name = resolve_known reason (get table name)

unfoldable pub degrade : AliasError → AliasTable → AliasTable
unfolding known
degrade reason t = degraded reason (known t)

unfoldable pub table_eq : Table → Table → Bool
table_eq [] [] = true
table_eq ((j, v) ∷ a) ((k, w) ∷ b) = text_eq j k && (text_eq v w && table_eq a b)
table_eq _ _ = false

pub data OnWriteError : Type 0 where
  refuse keep : OnWriteError

pub data AliasUpdate (E : Type 0) : Type 0 where
  committed : AliasUpdate E
  not_written : IoError → AliasUpdate E
  unwritable : AliasError → AliasUpdate E
  rejected : E → AliasUpdate E

abbrev pub alias_file : Text → FilePath
alias_file dir = record { dir = dir; name = bytes "aliases.toml" }

-- What tasks share: the alias table behind the state lock, the rest of the state, and the world.
pub record Shared (World Rest : Type 0) : Type 0 where
  pub aliases : AliasTable
  pub rest : Rest
  pub world : World

abbrev max_alias_bytes : ℕ
max_alias_bytes = 1048576

-- `from_toml` is `read_to_string`'s test for UTF-8 and `toml::from_str`, both `InvalidData`.
module _ {World : Type 0} (os : Os World) (from_toml : Bytes → Option Table) where
  loaded_text : Result IoError Bytes → Result IoError Table
  loaded_text (err IoError.not_found) = ok []
  loaded_text (err e) = err e
  loaded_text (ok text) = ok_or (from_toml text) IoError.invalid_data

  loaded_size : FilePath → World → Result IoError ℕ → Result IoError Table
  unfolding loaded_text
  loaded_size path w (err IoError.not_found) = ok []
  loaded_size path w (err e) = err e
  loaded_size path w (ok size) =
      if ltb max_alias_bytes size then err IoError.invalid_data else loaded_text (os.read path w)

  unfoldable pub load_aliases : Text → World → Result IoError Table
  unfolding loaded_size
  load_aliases dir w = loaded_size (alias_file dir) w (os.file_len (alias_file dir) w)

-- `toml::to_string` of the file's table.
module _ {World : Type 0} (os : Os World) (to_toml : Table → Option Bytes) (dir : Text) where
  save_in_dir : Option Bytes → Io World → Io World
  save_in_dir text (err e, w) = (err e, w)
  save_in_dir none (ok _, w) = (err IoError.invalid_data, w)
  save_in_dir (some text) (ok _, w) = atomic_write os (alias_file dir) text w

  unfoldable pub save_aliases_to : Table → World → Io World
  unfolding save_in_dir
  save_aliases_to table w = save_in_dir (to_toml table) (ensure_vault_dir os dir w)

  module _ {Rest E : Type 0} (on_write_error : OnWriteError)
      (edit : Shared World Rest → Table → Result E Table)
      (between : ℕ → Shared World Rest → Shared World Rest) where
    -- `between` is what other tasks do while the guard is dropped: before the write (`3 n`), after it
    -- (`3 n + 1`) and before the next attempt (`3 n + 2`), with `n` attempts left.
    unfoldable pub write_next :
        ℕ → Table → Shared World Rest → Result IoError (Unit {0}) × Shared World Rest
    unfolding save_aliases_to
    write_next n next s =
        let s1 = between (3 * n) s in
        let (r, w) = save_aliases_to next s1.world in
        (r, between (3 * n + 1) (record s1 { world = w }))

    settle_failed : OnWriteError → Table → Shared World Rest → Shared World Rest
    settle_failed refuse next s = s
    settle_failed keep next s = record s { aliases = usable next }

    -- The end of an attempt that is not redone.
    settle :
        Table → Result IoError (Unit {0}) × Shared World Rest → AliasUpdate E × Shared World Rest
    unfolding settle_failed
    settle next (ok _, s) = (committed, record s { aliases = usable next })
    settle next (err e, s) = (not_written e, settle_failed on_write_error next s)

    abbrev Again : Type 0
    Again =
        Table → Result IoError (Unit {0}) × Shared World Rest → AliasUpdate E × Shared World Rest

    -- What follows the write, behind the second lock: `again` where the table has changed.
    checked :
        Again
        → Table
        → Table
        → Result IoError (Unit {0}) × Shared World Rest
        → Result AliasError Table
        → AliasUpdate E × Shared World Rest
    unfolding settle table_eq
    checked again base next (r, s) (err e) = (unwritable e, s)
    checked again base next (r, s) (ok current) =
        if table_eq current base then settle next (r, s) else again next (r, s)

    edited :
        Again → ℕ → Table → Shared World Rest → Result E Table → AliasUpdate E × Shared World Rest
    unfolding checked write_next writable
    edited again n base s (err e) = (rejected e, s)
    edited again n base s (ok next) =
        let (r, s1) = write_next n next s in checked again base next (r, s1) (writable s1.aliases)

    based :
        Again → ℕ → Shared World Rest → Result AliasError Table → AliasUpdate E × Shared World Rest
    unfolding edited
    based again n s (err e) = (unwritable e, s)
    based again n s (ok base) = edited again n base s (edit s base)

    attempt : Again → ℕ → Shared World Rest → AliasUpdate E × Shared World Rest
    unfolding based writable
    attempt again n s = based again n s (writable s.aliases)

    -- The loop with `n` attempts behind this one.
    unfoldable pub update_from : ℕ → Shared World Rest → AliasUpdate E × Shared World Rest
    unfolding attempt settle
    update_from zero s = attempt settle zero s
    update_from (suc n) s =
        attempt (λ next p. update_from n (between (3 * suc n + 2) p.1)) (suc n) s

    unfoldable pub update_aliases : Shared World Rest → AliasUpdate E × Shared World Rest
    unfolding update_from
    update_aliases s = update_from 7 s
