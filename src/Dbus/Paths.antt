-- ===== src/Dbus/Paths.antt =====
-- The layout of object paths, src/dbus/paths.rs.
pub mod Build
pub mod RoundTrip
use secret_manager.Base.{
  ℕ, zero, suc, ◌+◌, ◌-◌, ◌*◌, ◌/◌, ◌%◌, ◌^◌, ◌≤◌, ◌<◌, min, String, ◌≡◌, refl, sym, ap, ◌∙◌,
  fun_ext, ◌≢◌, ◌↔◌, ◌⊎◌, inl, inr, Bool, true, false, not, ◌&&◌, ◌||◌, Option, none, some, List,
  [], ◌∷◌, ◌++◌, map, append_assoc, append-nil, arith, ltb, leb, ◌==◌, if◌then◌else◌, ltb→lt,
  not-ltb→le, le→not-ltb, lt→ltb, ==_iff, tests, Bool-cases, Option-cases, length, is_empty,
  get_elem?, set, take, drop, all, any, All, length-append, append_inj, replicate, take-append,
  drop-append, take-take, drop-take, take-append-length, drop-append-length, take-append-drop,
  length-take, length-drop, length-set, Bytes, Text, bytes, text_eq, text_eq_iff, text_eq_refl,
  Result, ok, err, ◌>>=◌, ◌>>◌, ok_or, map_err, or_else, Result-cases,
}

abbrev pub collections_prefix : Text
collections_prefix = bytes "/org/freedesktop/secrets/collection/"

abbrev pub aliases_prefix : Text
aliases_prefix = bytes "/org/freedesktop/secrets/aliases/"

abbrev pub sessions_prefix : Text
sessions_prefix = bytes "/org/freedesktop/secrets/session/"

abbrev pub prompts_prefix : Text
prompts_prefix = bytes "/org/freedesktop/secrets/prompt/"

unfoldable pub is_segment_byte : ℕ → Bool
is_segment_byte b =
    (leb b'0' b && leb b b'9')
    || ((leb b'A' b && leb b b'Z') || ((leb b'a' b && leb b b'z') || (b == b'_')))

unfoldable pub is_segment : Text → Bool
is_segment s = not (is_empty s) && all is_segment_byte s

pub data Target : Type 0 where
  collection alias : Text → Target
  item alias_item : Text → Text → Target

-- `str::strip_prefix`
unfoldable pub strip_prefix : Text → Text → Option Text
strip_prefix [] s = some s
strip_prefix (p ∷ ps) [] = none
strip_prefix (p ∷ ps) (x ∷ s) = let rest = strip_prefix ps s in if p == x then rest else none

-- `rest.split('/')`: at least one part.
abbrev pub grow : ℕ → List Text → List Text
grow x [] = (x ∷ []) ∷ []
grow x (part ∷ parts) = (x ∷ part) ∷ parts

unfoldable pub split : Text → List Text
split [] = [] ∷ []
split (x ∷ s) = let parts = split s in if x == b'/' then [] ∷ parts else grow x parts

-- The `split` closure of `parse`: one segment or two.
unfoldable pub segments : List Text → Option (Text × Option Text)
unfolding is_segment
segments [] = none
segments (a ∷ []) = if is_segment a then some (a, none) else none
segments (a ∷ b ∷ []) = if is_segment a && is_segment b then some (a, some b) else none
segments (a ∷ b ∷ c ∷ rest) = none

abbrev pub under_collections : Option (Text × Option Text) → Option Target
under_collections none = none
under_collections (some (c, none)) = some (Target.collection c)
under_collections (some (c, some i)) = some (Target.item c i)

abbrev pub under_aliases : Option (Text × Option Text) → Option Target
under_aliases none = none
under_aliases (some (a, none)) = some (Target.alias a)
under_aliases (some (a, some i)) = some (Target.alias_item a i)

abbrev pub parse_aliases : Option Text → Option Target
parse_aliases none = none
parse_aliases (some rest) = under_aliases (segments (split rest))

abbrev pub parse_from : Text → Option Text → Option Target
parse_from path (some rest) = under_collections (segments (split rest))
parse_from path none = parse_aliases (strip_prefix aliases_prefix path)

unfoldable pub parse : Text → Option Target
unfolding strip_prefix split segments
parse path = parse_from path (strip_prefix collections_prefix path)
