-- ===== src/Vault/Sweep/Shape.antt =====
-- Which names the sweep takes for temp files: `is_write_atomic_temp_name` of vault/store.rs.
use secret_manager.Base.{
  ℕ, ◌-◌, ◌*◌, ◌/◌, ◌%◌, ◌<◌, ◌≡◌, refl, sym, ◌∙◌, ◌↔◌, inl, inr, Bool, true, false, not, ◌&&◌,
  Option, none, some, [], ◌∷◌, ◌++◌, append_assoc, arith, leb, ◌==◌, ==_iff, Bool-cases,
  Option-cases, length, is_empty, take, drop, all, All, length-append, take-append-length,
  drop-append-length, take-append-drop, Bytes, Text, bytes, text_eq, text_eq_iff, text_eq_refl,
}
use mathlib.Core.Path.{subst}
use secret_manager.Vault.Os.{FilePath}
use secret_manager.Vault.Publish.{temp_path, hex, hex_digit}
use secret_manager.Vault.Sweep.{
  strip_suffix, split_head, rsplit_once, is_lower_hex, is_vault_stem, is_temp_split,
  is_write_atomic_temp_name,
}

strip_suffix-append : (suffix front : Text) → strip_suffix suffix (front ++ suffix) ≡ some front
unfolding strip_suffix
strip_suffix-append suffix front =
    let cut : length (front ++ suffix) - length suffix ≡ length front =
      rw (length-append front suffix) (omega arith) in
    let fits : leb (length suffix) (length (front ++ suffix)) ≡ true =
      rw (length-append front suffix) (ground arith) in
    rw
      (
        cut,
        fits,
        drop-append-length front suffix,
        take-append-length front suffix,
        text_eq_refl suffix,
      )
      refl

strip_suffix_inv :
    (suffix s front : Text) → strip_suffix suffix s ≡ some front → s ≡ front ++ suffix
unfolding strip_suffix
strip_suffix_inv suffix s front h =
    elim (Bool-cases
      (leb (length suffix) (length s) && text_eq (drop (length s - length suffix) s) suffix)) [
        | inl e ↦
            let cut = length s - length suffix in
            let back : drop cut s ≡ suffix = (text_eq_iff (drop cut s) suffix).0 (ground arith) in
            let start : take cut s ≡ front = cc (rw (e, strip_suffix) at h) in
            sym (take-append-drop cut s) ∙ rw (start, back) refl
        | inr e ↦ cc (rw (e, strip_suffix) at h)
      ]

split_head_inv :
    (b x : ℕ) (rest : Text) (r : Option (Text × Text)) (front back : Text)
    → ((f k : Text) → r ≡ some (f, k) → rest ≡ f ++ (b ∷ k))
    → split_head b x rest r ≡ some (front, back)
    → x ∷ rest ≡ front ++ (b ∷ back)
split_head_inv b x rest (some (f, k)) front back inv h =
    let e = inv f k refl in
    let start : x ∷ f ≡ front = cc in let last : k ≡ back = cc in rw (e, ← start, ← last) refl
split_head_inv b x rest none front back inv h = elim (Bool-cases (x == b)) [
  | inl e ↦
      let same : x ≡ b = (==_iff x b).0 e in
      let found = rw e at h in
      let start : [] ≡ front = cc in let last : rest ≡ back = cc in rw (← start, ← last, same) refl
  | inr e ↦ cc (rw e at h)
]

rsplit_once_inv :
    (b : ℕ) (s front back : Text) → rsplit_once b s ≡ some (front, back) → s ≡ front ++ (b ∷ back)
unfolding rsplit_once
rsplit_once_inv b [] front back h = cc
rsplit_once_inv b (x ∷ rest) front back h =
    split_head_inv b x rest (rsplit_once b rest) front back (rsplit_once_inv b rest) h

abbrev lacks : ℕ → Text → Bool
lacks b s = all (λ x. not (x == b)) s

rsplit_once-lacks : (b : ℕ) (s : Text) → lacks b s ≡ true → rsplit_once b s ≡ none
unfolding rsplit_once
rsplit_once-lacks b [] h = refl
rsplit_once-lacks b (x ∷ rest) h =
    let other : (x == b) ≡ false = ground arith in
    let more : lacks b rest ≡ true = ground arith in rw (rsplit_once-lacks b rest more, other) refl

rsplit_once-append :
    (b : ℕ) (front back : Text)
    → lacks b back ≡ true
    → rsplit_once b (front ++ (b ∷ back)) ≡ some (front, back)
unfolding rsplit_once
rsplit_once-append b [] back h = rw (rsplit_once-lacks b back h, (==_iff b b).1 refl) refl
rsplit_once-append b (x ∷ front) back h = rw (rsplit_once-append b front back h) refl

hex-lacks_dot : (s : Text) → all is_lower_hex s ≡ true → lacks b'.' s ≡ true
hex-lacks_dot [] h = refl
hex-lacks_dot (x ∷ s) h =
    let now : is_lower_hex x ≡ true = ground arith in
    let more : all is_lower_hex s ≡ true = ground arith in
    let other : not (x == b'.') ≡ true = ground arith in rw (other, hex-lacks_dot s more) refl

-- The shape of a temp file's name: a vault's name, a dot, sixteen lower-case hex digits, `.tmp`.
pub record IsTempName (name : Text) : Type 0 where
  pub base : Text
  pub digits : Text
  pub base_nonempty : is_empty base ≡ false
  pub sixteen : length digits ≡ 16
  pub lower_hex : all is_lower_hex digits ≡ true
  pub shape : name ≡ ((base ++ bytes ".vault") ++ (b'.' ∷ digits)) ++ bytes ".tmp"

accepts : (name : Text) → IsTempName name → is_write_atomic_temp_name name ≡ true
unfolding is_write_atomic_temp_name is_temp_split is_vault_stem
accepts name t =
    rw
      (
        t.shape,
        is_write_atomic_temp_name,
        strip_suffix-append (bytes ".tmp") ((t.base ++ bytes ".vault") ++ (b'.' ∷ t.digits)),
        rsplit_once-append b'.' (t.base ++ bytes ".vault") t.digits
            (hex-lacks_dot t.digits t.lower_hex),
        is_temp_split,
        is_vault_stem,
        strip_suffix-append (bytes ".vault") t.base,
        t.base_nonempty,
        t.sixteen,
        t.lower_hex,
      )
      refl

is_vault_stem_inv :
    (stem : Text)
    → is_vault_stem stem ≡ true
    → (base : Text) × (is_empty base ≡ false) × (stem ≡ base ++ bytes ".vault")
unfolding is_vault_stem
is_vault_stem_inv stem h = elim (Option-cases (strip_suffix (bytes ".vault") stem)) [
  | inl n ↦ cc (rw (n, is_vault_stem) at h)
  | inr (base, e) ↦ (base, ground (arith, e), strip_suffix_inv (bytes ".vault") stem base e)
]

is_temp_split_inv :
    (rest stem digits : Text)
    → rest ≡ stem ++ (b'.' ∷ digits)
    → is_temp_split (some (stem, digits)) ≡ true
    → IsTempName (rest ++ bytes ".tmp")
unfolding is_temp_split
is_temp_split_inv rest stem digits whole h =
    let (base, full, e) = is_vault_stem_inv stem (ground arith) in
    let n : (length digits == 16) ≡ true = ground arith in
    record {
      base = base;
      digits = digits;
      base_nonempty = full;
      sixteen = (==_iff (length digits) 16).0 n;
      lower_hex = ground arith;
      shape = rw (whole, e) refl;
    }

rejects : (name : Text) → is_write_atomic_temp_name name ≡ true → IsTempName name
unfolding is_write_atomic_temp_name
rejects name h = elim (Option-cases (strip_suffix (bytes ".tmp") name)) [
  | inl n ↦ cc (rw (n, is_write_atomic_temp_name) at h)
  | inr (rest, e) ↦ elim (Option-cases (rsplit_once b'.' rest)) [
    | inl n ↦ cc (rw (e, n, is_write_atomic_temp_name) at h)
    | inr ((stem, digits), s) ↦
        subst IsTempName (sym (strip_suffix_inv (bytes ".tmp") name rest e)) (
          is_temp_split_inv rest stem digits (rsplit_once_inv b'.' rest stem digits s)
            (rw (e, s, is_write_atomic_temp_name) at h))
  ]
]

-- The sweep's test of a name is true exactly of a nonempty name, `.vault`, a dot, sixteen lower-case
-- hex digits and `.tmp`, one behind the other.
pub is_write_atomic_temp_name_iff :
    (name : Text) → (is_write_atomic_temp_name name ≡ true) ↔ IsTempName name
is_write_atomic_temp_name_iff name = (rejects name, accepts name)

length-hex : (b : Bytes) → length (hex b) ≡ 2 * length b
unfolding hex
length-hex [] = omega arith
length-hex (x ∷ b) = omega (arith, length-hex b)

abbrev pub IsByte : ℕ → Type 0
IsByte x = x < 256

hex-lower : (b : Bytes) → All IsByte b → all is_lower_hex (hex b) ≡ true
unfolding hex
hex-lower [] h = refl
hex-lower (x ∷ b) (small, more) =
    let high : is_lower_hex (hex_digit (x / 16)) ≡ true = ground arith in
    let low : is_lower_hex (hex_digit (x % 16)) ≡ true = ground arith in
    rw (high, low) (hex-lower b more)

-- The temp file that a save of a vault makes has a name that the sweep recognises.
pub temp_path-IsTempName :
    (path : FilePath) (base : Text) (suffix : Bytes)
    → path.name ≡ base ++ bytes ".vault"
    → is_empty base ≡ false
    → length suffix ≡ 8
    → All IsByte suffix
    → IsTempName (temp_path path suffix).name
unfolding temp_path
temp_path-IsTempName path base suffix name full eight small = record {
  base = base;
  digits = hex suffix;
  base_nonempty = full;
  sixteen = omega (arith, length-hex suffix);
  lower_hex = hex-lower suffix small;
  shape =
      rw (name) (sym (append_assoc (base ++ bytes ".vault") (b'.' ∷ hex suffix) (bytes ".tmp")));
}
