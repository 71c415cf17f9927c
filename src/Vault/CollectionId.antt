-- ===== src/Vault/CollectionId.antt =====
-- The id of a collection from its label, `collection_id_from_label` of vault/mod.rs.
pub mod Safe
use secret_manager.Base.{
  ℕ, zero, suc, ◌+◌, ◌-◌, ◌*◌, ◌/◌, ◌%◌, ◌^◌, ◌≤◌, ◌<◌, min, String, ◌≡◌, refl, sym, ap, ◌∙◌,
  fun_ext, ◌≢◌, ◌↔◌, ◌⊎◌, inl, inr, Bool, true, false, not, ◌&&◌, ◌||◌, Option, none, some, List,
  [], ◌∷◌, ◌++◌, map, append_assoc, append-nil, arith, ltb, leb, ◌==◌, if◌then◌else◌, ltb→lt,
  not-ltb→le, le→not-ltb, lt→ltb, ==_iff, tests, Bool-cases, Option-cases, length, is_empty,
  get_elem?, set, take, drop, all, any, All, length-append, append_inj, replicate, take-append,
  drop-append, take-take, drop-take, take-append-length, drop-append-length, take-append-drop,
  length-take, length-drop, length-set, Bytes, Text, bytes, text_eq, text_eq_iff, text_eq_refl,
  Result, ok, err, ◌>>=◌, ◌>>◌, ok_or, map_err, or_else, Result-cases,
}
use secret_manager.Utf8.{chars}

abbrev pub max_id_len : ℕ
max_id_len = 200

-- `char::to_ascii_lowercase`
unfoldable pub to_ascii_lowercase : ℕ → ℕ
to_ascii_lowercase ch = if leb b'A' ch && leb ch b'Z' then ch + 32 else ch

-- `char::is_ascii_alphanumeric`
unfoldable pub is_ascii_alphanumeric : ℕ → Bool
is_ascii_alphanumeric ch =
    (leb b'0' ch && leb ch b'9') || ((leb b'A' ch && leb ch b'Z') || (leb b'a' ch && leb ch b'z'))

-- The loop over the characters: the id so far, and whether its last character is a separator.
unfoldable pub push_chars : Text → Bool → List ℕ → Text
unfolding to_ascii_lowercase is_ascii_alphanumeric
push_chars id last_underscore [] = id
push_chars id last_underscore (ch ∷ rest) =
    let c = to_ascii_lowercase ch in
    let kept = push_chars (id ++ c ∷ []) false rest in
    let separated = push_chars (id ++ b'_' ∷ []) true rest in
    let skipped = push_chars id last_underscore rest in
    if is_ascii_alphanumeric c
    then kept
    else if not last_underscore && not (is_empty id)
    then separated
    else skipped

-- `str::trim_end_matches('_')`
abbrev pub trim_step : ℕ → Text → Text
trim_step x rest = if is_empty rest && (x == b'_') then [] else x ∷ rest

unfoldable pub trim_end : Text → Text
trim_end [] = []
trim_end (x ∷ rest) = trim_step x (trim_end rest)

unfoldable pub collection_id_from_label : Text → Text
unfolding push_chars trim_end
collection_id_from_label label =
    let pushed = push_chars [] false (chars label) in
    let id = trim_end (take (min (length pushed) max_id_len) pushed) in
    if is_empty id then bytes "collection" else id
