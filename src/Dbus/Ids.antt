-- ===== src/Dbus/Ids.antt =====
-- A free id for a new collection: `unique_collection_id_in` of src/dbus/state.rs.
pub mod Found
use secret_manager.Base.{
  ℕ, zero, suc, ◌+◌, ◌-◌, ◌*◌, ◌/◌, ◌%◌, ◌^◌, ◌≤◌, ◌<◌, min, String, ◌≡◌, refl, sym, ap, ◌∙◌,
  fun_ext, ◌≢◌, ◌↔◌, ◌⊎◌, inl, inr, Bool, true, false, not, ◌&&◌, ◌||◌, Option, none, some, List,
  [], ◌∷◌, ◌++◌, map, append_assoc, append-nil, arith, ltb, leb, ◌==◌, if◌then◌else◌, ltb→lt,
  not-ltb→le, le→not-ltb, lt→ltb, ==_iff, tests, Bool-cases, Option-cases, length, is_empty,
  get_elem?, set, take, drop, all, any, All, length-append, append_inj, replicate, take-append,
  drop-append, take-take, drop-take, take-append-length, drop-append-length, take-append-drop,
  length-take, length-drop, length-set, Bytes, Text, bytes, text_eq, text_eq_iff, text_eq_refl,
  Result, ok, err, ◌>>=◌, ◌>>◌, ok_or, map_err, or_else, Result-cases,
}
use secret_manager.Base.Decimal.{to_decimal}
use secret_manager.Vault.CollectionId.{collection_id_from_label}

-- `loaded` are the ids of the daemon; `present` says whether the directory has an entry of a name,
-- whatever it is (`symlink_metadata`).
unfoldable pub taken : List Text → (Text → Bool) → Text → Bool
taken loaded present id = any (text_eq id) loaded || present (id ++ bytes ".vault")

unfoldable pub numbered : Text → ℕ → Text
numbered base n = base ++ (b'_' ∷ to_decimal n)

-- `(2..).map(..).find(..)` with fuel; `none` means that the fuel ran out.
unfoldable pub find_free : ℕ → (Text → Bool) → Text → ℕ → Option Text
find_free zero is_taken base n = none
find_free (suc fuel) is_taken base n =
    let more = find_free fuel is_taken base (n + 1) in
    if is_taken (numbered base n) then more else some (numbered base n)

unfoldable pub unique_collection_id_in : ℕ → List Text → (Text → Bool) → Text → Option Text
unfolding find_free
unique_collection_id_in fuel loaded present label =
    let base = collection_id_from_label label in
    if taken loaded present base then find_free fuel (taken loaded present) base 2 else some base
