-- ===== src/Dbus/State.antt =====
-- The daemon's global state behind its lock: `ServiceState` of src/dbus/state.rs, without the fields
-- that are fixed at startup (directory, KDF parameters, pinentry and GnuPG settings) and the clocks.
pub mod Names
pub mod Targets
pub mod Merge
use secret_manager.Base.{
  ℕ, zero, suc, ◌+◌, ◌-◌, ◌*◌, ◌/◌, ◌%◌, ◌^◌, ◌≤◌, ◌<◌, min, String, ◌≡◌, refl, sym, ap, ◌∙◌,
  fun_ext, ◌≢◌, ◌↔◌, ◌⊎◌, inl, inr, Bool, true, false, not, ◌&&◌, ◌||◌, Option, none, some, List,
  [], ◌∷◌, ◌++◌, map, append_assoc, append-nil, arith, ltb, leb, ◌==◌, if◌then◌else◌, ltb→lt,
  not-ltb→le, le→not-ltb, lt→ltb, ==_iff, tests, Bool-cases, Option-cases, length, is_empty,
  get_elem?, set, take, drop, all, any, All, length-append, append_inj, replicate, take-append,
  drop-append, take-take, drop-take, take-append-length, drop-append-length, take-append-drop,
  length-take, length-drop, length-set, Bytes, Text, bytes, text_eq, text_eq_iff, text_eq_refl,
  Result, ok, err, ◌>>=◌, ◌>>◌, ok_or, map_err, or_else, Result-cases,
}
use secret_manager.Base.Maps.{
  Map, get, contains_key, insert_key, remove_key, keys, retain_keys, count_values,
}
use secret_manager.Base.Decimal.{to_decimal}
use secret_manager.Vault.Publish.{hex}
use secret_manager.Dbus.Paths.{
  Target, collection, alias, item, alias_item, parse, sessions_prefix, prompts_prefix,
}
use secret_manager.Dbus.Aliases.{AliasError, Table, AliasTable, usable, unusable, resolve, degrade}

pub data Fdo : Type 0 where
  failed invalid_args not_supported : Text → Fdo

pub data Error : Type 0 where
  zbus : Fdo → Error
  is_locked no_session no_such_object : Error

abbrev pub max_sessions_per_sender : ℕ
max_sessions_per_sender = 32

abbrev pub max_prompts_per_owner : ℕ
max_prompts_per_owner = 8

pub record SessionEntry (C : Type 0) : Type 0 where
  pub owner : Text
  pub cipher : C

-- `V` is a reference to a vault behind its own lock, `C` the cipher of a session. An abort handle
-- and a commit gate are named by numbers.
pub record ServiceState (V C : Type 0) : Type 0 where
  pub collections : Map V
  pub broken : Map (Text × Text)
  pub aliases : AliasTable
  pub sessions : Map (SessionEntry C)
  pub prompt_owners : Map Text
  pub prompt_tasks : Map ℕ
  pub prompt_commits : Map ℕ
  pub prompt_unlocked : Map (List Text)
  pub next_session : ℕ
  pub next_prompt : ℕ

-- What a scan of the directory found; the vaults that it opened are behind fresh locks.
pub record VaultScan (V : Type 0) : Type 0 where
  pub opened : Map V
  pub broken : List (Text × (Text × Text))
  pub aliases : Result AliasError Table
  pub seen : List Text

pub data PathTarget (V : Type 0) : Type 0 where
  collection_target : Text → V → PathTarget V
  broken_target : Text → PathTarget V
  item_target : Text → V → Text → PathTarget V

-- `paths::session` and `paths::prompt`
unfoldable pub counted_path : Text → ℕ → ℕ → Bytes → Text
counted_path prefix letter n suffix = prefix ++ (letter ∷ (to_decimal n ++ (b'_' ∷ hex suffix)))

abbrev pub session_path : ℕ → Bytes → Text
session_path n suffix = counted_path sessions_prefix b's' n suffix

abbrev pub prompt_path : ℕ → Bytes → Text
prompt_path n suffix = counted_path prompts_prefix b'p' n suffix

-- `unwrap_or(None)`
abbrev or_none : Result AliasError (Option Text) → Option Text
or_none (ok id) = id
or_none (err e) = none

-- An id is new if neither map had it.
abbrev noted : Bool → Text → List Text → List Text
noted was_known id new_ids = if was_known then new_ids else new_ids ++ (id ∷ [])

abbrev merge_aliases : Result AliasError Table → AliasTable → AliasTable
merge_aliases (ok table) t = usable table
merge_aliases (err reason) t = degrade reason t

abbrev owned_cipher : {C : Type 0} → Text → Option (SessionEntry C) → Result Error C
owned_cipher sender none = err no_session
owned_cipher sender (some e) = if text_eq e.owner sender then ok e.cipher else err no_session

abbrev with_item : Option Text → Option Text → Option (Text × Option Text)
with_item none iid = none
with_item (some cid) iid = some (cid, iid)

module _ {V C : Type 0} where
  abbrev pub initial : ServiceState V C
  initial = record {
    collections = [];
    broken = [];
    aliases = usable [];
    sessions = [];
    prompt_owners = [];
    prompt_tasks = [];
    prompt_commits = [];
    prompt_unlocked = [];
    next_session = 0;
    next_prompt = 0;
  }

  abbrev pub loaded_ids : ServiceState V C → List Text
  loaded_ids st = keys st.collections

  unfoldable pub merge_opened : Map V → ServiceState V C × List Text → ServiceState V C × List Text
  merge_opened [] (st, new_ids) = (st, new_ids)
  merge_opened ((id, vault) ∷ rest) (st, new_ids) = merge_opened rest (
    record st {
      broken = remove_key id st.broken;
      collections = insert_key id vault st.collections;
    },
    noted (contains_key st.collections id || contains_key st.broken id) id new_ids,
  )

  unfoldable pub merge_broken :
      List (Text × (Text × Text)) → ServiceState V C × List Text → ServiceState V C × List Text
  merge_broken [] (st, new_ids) = (st, new_ids)
  merge_broken ((id, why) ∷ rest) (st, new_ids) = merge_broken rest (
    record st { broken = insert_key id why st.broken },
    noted (contains_key st.broken id || contains_key st.collections id) id new_ids,
  )

  unfoldable pub merge_scan : VaultScan V → ServiceState V C → ServiceState V C × List Text
  unfolding merge_opened merge_broken
  merge_scan scan st =
      let (st1, new_ids) = merge_broken scan.broken (merge_opened scan.opened (st, [])) in
      (
        record st1 {
          broken = retain_keys (λ id. any (text_eq id) scan.seen) st1.broken;
          aliases = merge_aliases scan.aliases st1.aliases;
        },
        new_ids,
      )

  abbrev pub broken_error : ServiceState V C → Text → Option Text
  broken_error st id = elim (get st.broken id) [ none ↦ none | some why ↦ some why.1 ]

  abbrev pub aliases_unusable : ServiceState V C → Option AliasError
  aliases_unusable st = unusable st.aliases

  abbrev filter_loaded : ServiceState V C → Option Text → Option Text
  filter_loaded st none = none
  filter_loaded st (some id) = if contains_key st.collections id then some id else none

  unfoldable pub alias_target : ServiceState V C → Text → Result AliasError (Option Text)
  unfolding resolve
  alias_target st name = elim (resolve st.aliases name) [
    | err e ↦ err e
    | ok id ↦ ok (filter_loaded st id)
  ]

  collection_of : ServiceState V C → Option Target → Option Text
  unfolding alias_target
  collection_of st (some (Target.collection id)) =
      if contains_key st.collections id || contains_key st.broken id then some id else none
  collection_of st (some (Target.alias name)) = or_none (alias_target st name)
  collection_of st (some (Target.item _ _)) = none
  collection_of st (some (Target.alias_item _ _)) = none
  collection_of st none = none

  unfoldable pub resolve_collection : ServiceState V C → Text → Option Text
  unfolding collection_of parse
  resolve_collection st path = collection_of st (parse path)

  abbrev pub vault : ServiceState V C → Text → Option V
  vault st id = get st.collections id

  -- The collection id and the item that a path names, alias paths through the table.
  unfoldable pub named : ServiceState V C → Option Target → Option (Text × Option Text)
  unfolding alias_target
  named st none = none
  named st (some (Target.collection id)) = some (id, none)
  named st (some (Target.alias name)) = with_item (or_none (alias_target st name)) none
  named st (some (Target.item cid iid)) = some (cid, some iid)
  named st (some (Target.alias_item name iid)) =
      with_item (or_none (alias_target st name)) (some iid)

  target_of : ServiceState V C → Text → Option V → Option Text → Option (PathTarget V)
  target_of st cid (some v) none = some (collection_target cid v)
  target_of st cid (some v) (some iid) = some (item_target cid v iid)
  target_of st cid none none = if contains_key st.broken cid then some (broken_target cid) else none
  target_of st cid none (some iid) = none

  named_target : ServiceState V C → Option (Text × Option Text) → Option (PathTarget V)
  unfolding target_of
  named_target st none = none
  named_target st (some (cid, iid)) = target_of st cid (get st.collections cid) iid

  unfoldable pub resolve_path : ServiceState V C → Text → Option (PathTarget V)
  unfolding named named_target parse
  resolve_path st path = named_target st (named st (parse path))

  unfoldable pub check_session_quota : Text → ServiceState V C → Result Error (Unit {0})
  check_session_quota owner st =
      if leb max_sessions_per_sender
        (count_values (λ (e : SessionEntry C). text_eq e.owner owner) st.sessions)
      then err (zbus (failed (bytes "too many open sessions")))
      else ok tt

  unfoldable pub check_prompt_quota : Text → ServiceState V C → Result Error (Unit {0})
  check_prompt_quota owner st =
      if leb max_prompts_per_owner (count_values (λ o. text_eq o owner) st.prompt_owners)
      then err (zbus (failed (bytes "too many outstanding prompts")))
      else ok tt

  -- `suffix` are the eight random bytes of `unguessable_suffix`.
  unfoldable pub new_session_path : Bytes → ServiceState V C → Text × ServiceState V C
  new_session_path suffix st =
      let n = (st.next_session + 1) % 2 ^ 64 in
      (session_path n suffix, record st { next_session = n })

  unfoldable pub new_prompt_path : Bytes → ServiceState V C → Text × ServiceState V C
  new_prompt_path suffix st =
      let n = (st.next_prompt + 1) % 2 ^ 64 in (prompt_path n suffix, record st { next_prompt = n })

  unfoldable pub cipher : Text → Text → ServiceState V C → Result Error C
  cipher path sender st = owned_cipher sender (get st.sessions path)
