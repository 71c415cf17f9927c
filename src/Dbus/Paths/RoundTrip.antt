-- ===== src/Dbus/Paths/RoundTrip.antt =====
-- `parse` against the paths that the service gives out (src/dbus/paths.rs).
use secret_manager.Base.{
  ℕ, ◌≡◌, refl, sym, ap, ◌∙◌, ◌↔◌, inl, inr, Bool, true, not, Option, none, some, List, [], ◌∷◌,
  ◌++◌, arith, ◌==◌, ==_iff, Bool-cases, Option-cases, all, Text,
}
use secret_manager.Dbus.Paths.{
  collections_prefix, aliases_prefix, is_segment_byte, is_segment, Target, strip_prefix, grow,
  split, segments, under_collections, under_aliases, parse_aliases, parse_from, parse,
}

strip_prefix-append : (p s : Text) → strip_prefix p (p ++ s) ≡ some s
unfolding strip_prefix
strip_prefix-append [] s = refl
strip_prefix-append (x ∷ p) s = rw ((==_iff x x).1 refl) (strip_prefix-append p s)

strip_prefix_inv : (p s rest : Text) → strip_prefix p s ≡ some rest → s ≡ p ++ rest
unfolding strip_prefix
strip_prefix_inv [] s rest h = cc
strip_prefix_inv (x ∷ p) [] rest h = cc
strip_prefix_inv (x ∷ p) (y ∷ s) rest h = ground (arith, strip_prefix_inv p s rest)

-- The text whose parts these are.
abbrev join : List Text → Text
join [] = []
join (a ∷ []) = a
join (a ∷ b ∷ rest) = a ++ (b'/' ∷ join (b ∷ rest))

join-grow : (x : ℕ) (parts : List Text) → join (grow x parts) ≡ x ∷ join parts
join-grow x [] = refl
join-grow x (a ∷ []) = refl
join-grow x (a ∷ b ∷ rest) = refl

join-nil_cons :
    (part : Text) (parts : List Text) → join ([] ∷ part ∷ parts) ≡ b'/' ∷ join (part ∷ parts)
join-nil_cons part parts = refl

split_cons : (s : Text) → (a : Text) × (rest : List Text) × (split s ≡ a ∷ rest)
unfolding split
split_cons [] = ([], [], refl)
split_cons (x ∷ s) = elim (Bool-cases (x == b'/')) [
  | inl e ↦ ([], split s, rw e refl)
  | inr e ↦ (let (a, rest, k) = split_cons s in (x ∷ a, rest, rw (e, k) refl))
]

join-split : (s : Text) → join (split s) ≡ s
unfolding split
join-split [] = refl
join-split (x ∷ s) = elim (Bool-cases (x == b'/')) [
  | inl e ↦
      let (a, rest, k) = split_cons s in
      let same : x ≡ b'/' = (==_iff x b'/').0 e in
      rw (e, k) (ap (λ t. b'/' ∷ t) (rw k at (join-split s)) ∙ ap (λ y. y ∷ s) (sym same))
  | inr e ↦ rw e (join-grow x (split s) ∙ ap (λ t. x ∷ t) (join-split s))
]

abbrev lacks_slash : Text → Bool
lacks_slash s = all (λ x. not (x == b'/')) s

segment-lacks_slash : (s : Text) → all is_segment_byte s ≡ true → lacks_slash s ≡ true
unfolding is_segment_byte
segment-lacks_slash [] h = refl
segment-lacks_slash (x ∷ s) h =
    let more : all is_segment_byte s ≡ true = ground arith in
    ground (arith, segment-lacks_slash s more)

split-lacks_slash : (s : Text) → lacks_slash s ≡ true → split s ≡ s ∷ []
unfolding split
split-lacks_slash [] h = refl
split-lacks_slash (x ∷ s) h =
    let more : lacks_slash s ≡ true = ground arith in ground (arith, split-lacks_slash s more)

split-append : (s t : Text) → lacks_slash s ≡ true → split (s ++ (b'/' ∷ t)) ≡ s ∷ split t
unfolding split
split-append [] t h = refl
split-append (x ∷ s) t h =
    let more : lacks_slash s ≡ true = ground arith in ground (arith, split-append s t more)

-- The path of a target.
abbrev pub path_of : Target → Text
path_of (Target.collection c) = collections_prefix ++ c
path_of (Target.alias a) = aliases_prefix ++ a
path_of (Target.item c i) = collections_prefix ++ (c ++ (b'/' ∷ i))
path_of (Target.alias_item a i) = aliases_prefix ++ (a ++ (b'/' ∷ i))

abbrev pub HasSegments : Target → Type 0
HasSegments (Target.collection c) = is_segment c ≡ true
HasSegments (Target.alias a) = is_segment a ≡ true
HasSegments (Target.item c i) = (is_segment c ≡ true) × (is_segment i ≡ true)
HasSegments (Target.alias_item a i) = (is_segment a ≡ true) × (is_segment i ≡ true)

one_segment : (a : Text) → is_segment a ≡ true → segments (split a) ≡ some (a, none)
unfolding segments is_segment
one_segment a h =
    let lacks = segment-lacks_slash a (ground arith) in rw (split-lacks_slash a lacks, h) refl

two_segments :
    (a b : Text)
    → is_segment a ≡ true
    → is_segment b ≡ true
    → segments (split (a ++ (b'/' ∷ b))) ≡ some (a, some b)
unfolding segments is_segment
two_segments a b h k =
    let first = split-append a b (segment-lacks_slash a (ground arith)) in
    let second = split-lacks_slash b (segment-lacks_slash b (ground arith)) in
    rw (first, second, h, k) refl

parse-collections :
    (rest : Text) → parse (collections_prefix ++ rest) ≡ under_collections (segments (split rest))
unfolding parse
parse-collections rest =
    ap (parse_from (collections_prefix ++ rest)) (strip_prefix-append collections_prefix rest)

parse-aliases :
    (rest : Text) → parse (aliases_prefix ++ rest) ≡ under_aliases (segments (split rest))
unfolding parse
parse-aliases rest =
    let other : strip_prefix collections_prefix (aliases_prefix ++ rest) ≡ none =
      unfold strip_prefix in refl in
    ap (parse_from (aliases_prefix ++ rest)) other
    ∙ ap parse_aliases (strip_prefix-append aliases_prefix rest)

parse-path_of : (t : Target) → HasSegments t → parse (path_of t) ≡ some t
parse-path_of (Target.collection c) h = parse-collections c ∙ rw (one_segment c h) refl
parse-path_of (Target.alias a) h = parse-aliases a ∙ rw (one_segment a h) refl
parse-path_of (Target.item c i) (h, k) =
    parse-collections (c ++ (b'/' ∷ i)) ∙ rw (two_segments c i h k) refl
parse-path_of (Target.alias_item a i) (h, k) =
    parse-aliases (a ++ (b'/' ∷ i)) ∙ rw (two_segments a i h k) refl

-- What `segments` accepts.
abbrev Parts : Text → Text × Option Text → Type 0
Parts s (a, none) = (s ≡ a) × (is_segment a ≡ true)
Parts s (a, some b) = (s ≡ a ++ (b'/' ∷ b)) × (is_segment a ≡ true) × (is_segment b ≡ true)

segments_inv :
    (s : Text) (parts : List Text) (p : Text × Option Text)
    → join parts ≡ s
    → segments parts ≡ some p
    → Parts s p
unfolding segments
segments_inv s [] p j h = cc
segments_inv s (a ∷ []) (c, none) j h = ground arith
segments_inv s (a ∷ []) (c, some d) j h = ground arith
segments_inv s (a ∷ b ∷ []) (c, none) j h = ground arith
segments_inv s (a ∷ b ∷ []) (c, some d) j h = ground arith
segments_inv s (a ∷ b ∷ x ∷ rest) p j h = cc

collections_inv :
    (rest : Text) (p : Text × Option Text) (t : Target)
    → Parts rest p
    → under_collections (some p) ≡ some t
    → HasSegments t × (collections_prefix ++ rest ≡ path_of t)
collections_inv rest (a, none) (Target.collection c) k h = ground arith
collections_inv rest (a, none) (Target.alias c) k h = cc
collections_inv rest (a, none) (Target.item c i) k h = cc
collections_inv rest (a, none) (Target.alias_item c i) k h = cc
collections_inv rest (a, some b) (Target.item c i) k h = ground arith
collections_inv rest (a, some b) (Target.collection c) k h = cc
collections_inv rest (a, some b) (Target.alias c) k h = cc
collections_inv rest (a, some b) (Target.alias_item c i) k h = cc

aliases_inv :
    (rest : Text) (p : Text × Option Text) (t : Target)
    → Parts rest p
    → under_aliases (some p) ≡ some t
    → HasSegments t × (aliases_prefix ++ rest ≡ path_of t)
aliases_inv rest (a, none) (Target.alias c) k h = ground arith
aliases_inv rest (a, none) (Target.collection c) k h = cc
aliases_inv rest (a, none) (Target.item c i) k h = cc
aliases_inv rest (a, none) (Target.alias_item c i) k h = cc
aliases_inv rest (a, some b) (Target.alias_item c i) k h = ground arith
aliases_inv rest (a, some b) (Target.collection c) k h = cc
aliases_inv rest (a, some b) (Target.alias c) k h = cc
aliases_inv rest (a, some b) (Target.item c i) k h = cc

parse_inv : (path : Text) (t : Target) → parse path ≡ some t → HasSegments t × (path ≡ path_of t)
unfolding parse
parse_inv path t h = elim (Option-cases (strip_prefix collections_prefix path)) [
  | inl n ↦ elim (Option-cases (strip_prefix aliases_prefix path)) [
    | inl m ↦ cc (rw (n, m) at h)
    | inr (rest, m) ↦ elim (Option-cases (segments (split rest))) [
      | inl k ↦ cc (rw (n, m, k) at h)
      | inr (p, k) ↦
          let parts = segments_inv rest (split rest) p (join-split rest) k in
          let (segs, e) = aliases_inv rest p t parts (rw (n, m, k) at h) in
          (segs, strip_prefix_inv aliases_prefix path rest m ∙ e)
    ]
  ]
  | inr (rest, m) ↦ elim (Option-cases (segments (split rest))) [
    | inl k ↦ cc (rw (m, k) at h)
    | inr (p, k) ↦
        let parts = segments_inv rest (split rest) p (join-split rest) k in
        let (segs, e) = collections_inv rest p t parts (rw (m, k) at h) in
        (segs, strip_prefix_inv collections_prefix path rest m ∙ e)
  ]
]

-- A path parses to a target exactly when it is that target's path and all its parts are segments:
-- no other path names a collection, an alias or an item, and none names two of them.
pub parse_iff :
    (path : Text) (t : Target) → (parse path ≡ some t) ↔ (HasSegments t × (path ≡ path_of t))
parse_iff path t = (parse_inv path t, λ h. ap parse h.1 ∙ parse-path_of t h.0)
