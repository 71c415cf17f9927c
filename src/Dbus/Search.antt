-- ===== src/Dbus/Search.antt =====
-- Searching a collection, locked or not: `search_collection` of src/dbus/state.rs.
pub mod Covers
use secret_manager.Base.{
  ℕ, zero, suc, ◌+◌, ◌-◌, ◌*◌, ◌/◌, ◌%◌, ◌^◌, ◌≤◌, ◌<◌, min, String, ◌≡◌, refl, sym, ap, ◌∙◌,
  fun_ext, ◌≢◌, ◌↔◌, ◌⊎◌, inl, inr, Bool, true, false, not, ◌&&◌, ◌||◌, Option, none, some, List,
  [], ◌∷◌, ◌++◌, map, append_assoc, append-nil, arith, ltb, leb, ◌==◌, if◌then◌else◌, ltb→lt,
  not-ltb→le, le→not-ltb, lt→ltb, ==_iff, tests, Bool-cases, Option-cases, length, is_empty,
  get_elem?, set, take, drop, all, any, All, length-append, append_inj, replicate, take-append,
  drop-append, take-take, drop-take, take-append-length, drop-append-length, take-append-drop,
  length-take, length-drop, length-set, Bytes, Text, bytes, text_eq, text_eq_iff, text_eq_refl,
  Result, ok, err, ◌>>=◌, ◌>>◌, ok_or, map_err, or_else, Result-cases,
}
use secret_manager.Vault.Types.{Attributes, Item, VaultError}
use secret_manager.Vault.Crates.{Crates}
use secret_manager.Vault.Collection.{Vault, search, search_ids}

found_ids : Crates → Vault → Attributes → Result VaultError (List Item) → List Text
found_ids c v query (ok list) = map (λ (i : Item). i.id) list
found_ids c v query (err e) = search_ids c v query

unfoldable pub search_collection : Crates → Vault → Attributes → List Text
unfolding found_ids search search_ids
search_collection c v query = found_ids c v query (search v query)
