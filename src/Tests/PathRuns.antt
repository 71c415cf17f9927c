-- ===== src/Tests/PathRuns.antt =====
-- The theorems on paths, ids and the daemon's state, at concrete inputs.
use secret_manager.Base.{
  ℕ, ◌≡◌, refl, sym, ◌↔◌, ◌⊎◌, inl, true, false, none, some, List, [], ◌∷◌, arith, any, Bytes, Text,
  bytes, text_eq, text_eq_iff, err,
}
use secret_manager.Base.Maps.{get}
use secret_manager.Vault.Index.Sorted.{Has}
use secret_manager.Dbus.Paths.{Target, parse, is_segment}
use secret_manager.Dbus.Paths.Build
use secret_manager.Dbus.Paths.RoundTrip.{HasSegments, path_of, parse_iff}
use secret_manager.Dbus.Ids.{taken, unique_collection_id_in}
use secret_manager.Dbus.Ids.Found.{unique_collection_id_in_total}
use secret_manager.Dbus.Aliases.{usable, known}
use secret_manager.Dbus.State.{
  ServiceState, initial, collection_target, item_target, PathTarget, VaultScan, resolve_path,
  merge_scan,
}
use secret_manager.Dbus.State.Names.{Names}
use secret_manager.Dbus.State.Targets.{Reaches, resolve_path-Reaches, resolve_path-item}
use secret_manager.Dbus.State.Merge.{merge_scan-keeps, table_after}

abbrev login_item : Text
login_item = bytes "/org/freedesktop/secrets/collection/login/a1"

parse_iff_example : (parse login_item ≡ some (Target.item (bytes "login") (bytes "a1"))) ↔ (
    HasSegments (Target.item (bytes "login") (bytes "a1"))
    × (login_item ≡ path_of (Target.item (bytes "login") (bytes "a1"))))
parse_iff_example = parse_iff login_item (Target.item (bytes "login") (bytes "a1"))

abbrev work : List Text
work = bytes "work" ∷ []

only_work : (id : Text) → taken work (λ _. false) id ≡ true → Has work id
unfolding taken
only_work id h = inl (sym ((text_eq_iff id (bytes "work")).0 (ground arith)))

unique_collection_id_in_total_example :
    (id : Text) × (unique_collection_id_in 2 work (λ _. false) (bytes "work") ≡ some id)
    × (taken work (λ _. false) id ≡ false)
unique_collection_id_in_total_example =
    unique_collection_id_in_total 2 work (λ _. false) (bytes "work") work (omega arith) only_work

-- Vaults by their numbers.
abbrev one_vault : ServiceState ℕ Bytes
one_vault = record initial {
  collections = (bytes "login", 7) ∷ [];
  aliases = usable ((bytes "default", bytes "login") ∷ []);
}

-- The path of an item behind an alias.
abbrev default_item : Text
default_item = bytes "/org/freedesktop/secrets/aliases/default/a1"

abbrev login_a1 : PathTarget ℕ
login_a1 = item_target (bytes "login") 7 (bytes "a1")

default_item_resolves : resolve_path one_vault default_item ≡ some login_a1
unfolding resolve_path get is_segment secret_manager.Dbus.Paths.is_segment_byte text_eq
default_item_resolves = refl

resolve_path-item_example :
    (resolve_path one_vault (Build.collection (bytes "login"))
      ≡ some (collection_target (bytes "login") 7))
    × (resolve_path one_vault (Build.item (bytes "login") (bytes "a1"))
        ≡ some (item_target (bytes "login") 7 (bytes "a1")))
unfolding get is_segment secret_manager.Dbus.Paths.is_segment_byte text_eq
resolve_path-item_example =
    resolve_path-item one_vault (bytes "login") (bytes "a1") 7 refl refl refl

resolve_path-Reaches_example : (resolve_path one_vault default_item ≡ some login_a1) ↔ (
    (n : Target) × HasSegments n
    × (default_item ≡ path_of n)
    × Names one_vault n (bytes "login") (some (bytes "a1"))
    × Reaches one_vault login_a1)
resolve_path-Reaches_example = resolve_path-Reaches one_vault default_item login_a1

abbrev found : VaultScan ℕ
found = record {
  opened = (bytes "work", 8) ∷ [];
  broken = [];
  aliases = err (bytes "bad");
  seen = bytes "login" ∷ bytes "work" ∷ [];
}

merge_scan-keeps_example :
    (get (merge_scan found one_vault).0.collections (bytes "login")
      ≡ get one_vault.collections (bytes "login"))
    × (known (merge_scan found one_vault).0.aliases
        ≡ table_after found.aliases (known one_vault.aliases))
    × ((any (text_eq (bytes "login")) found.seen ≡ true)
        ⊎ (get (merge_scan found one_vault).0.broken (bytes "login") ≡ none))
unfolding get text_eq
merge_scan-keeps_example = merge_scan-keeps found one_vault (bytes "login") refl
