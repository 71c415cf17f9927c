-- ===== src/Tests/Codec.antt =====
-- A concrete encoder for headers and items, and a cipher that writes down its key: functions that
-- meet what the vault assumes of postcard and of its cipher, for the tests to run on.
use secret_manager.Base.{
  ℕ, zero, suc, ◌≡◌, refl, ap, Option, none, some, List, [], ◌∷◌, ◌++◌, append_assoc, append-nil,
  if◌then◌else◌, length, take, drop, take-append-length, drop-append-length, Bytes, Text, text_eq,
  text_eq_refl,
}
use secret_manager.Vault.Types.{KdfParams, Header, IndexEntry, Item}
use secret_manager.Vault.Crates.{Crates, CratesLaws}

-- A decoder takes a value off the front of its input.
abbrev pub Decoder : Type 0 → Type 0
Decoder A = Bytes → Option (A × Bytes)

infixl 5 ◌>>?◌
abbrev pub ◌>>?◌ : {A B : Type 0} → Option (A × Bytes) → (A → Decoder B) → Option (B × Bytes)
none >>? f = none
some (a, rest) >>? f = f a rest

unfoldable pub get_number : Decoder ℕ
get_number [] = none
get_number (n ∷ rest) = some (n, rest)

unfoldable pub put_number : ℕ → Bytes
put_number n = n ∷ []

get-put_number : (n : ℕ) (rest : Bytes) → get_number (put_number n ++ rest) ≡ some (n, rest)
unfolding get_number put_number
get-put_number n rest = refl

unfoldable pub put_bytes : Bytes → Bytes
put_bytes b = length b ∷ b

unfoldable pub get_bytes : Decoder Bytes
get_bytes [] = none
get_bytes (n ∷ rest) = some (take n rest, drop n rest)

pub get-put_bytes : (b rest : Bytes) → get_bytes (put_bytes b ++ rest) ≡ some (b, rest)
unfolding get_bytes put_bytes
get-put_bytes b rest = rw (take-append-length b rest, drop-append-length b rest) refl

module _ {A : Type 0} (put : A → Bytes) (get : Decoder A) where
  unfoldable pub put_each : List A → Bytes
  put_each [] = []
  put_each (x ∷ xs) = put x ++ put_each xs

  unfoldable pub put_list : List A → Bytes
  put_list xs = length xs ∷ put_each xs

  unfoldable pub get_each : ℕ → Decoder (List A)
  get_each zero rest = some ([], rest)
  get_each (suc n) rest = get rest >>? λ x more. get_each n more >>? λ xs last. some (x ∷ xs, last)

  unfoldable pub get_list : Decoder (List A)
  get_list [] = none
  get_list (n ∷ rest) = get_each n rest

  module _ (law : (x : A) (rest : Bytes) → get (put x ++ rest) ≡ some (x, rest)) where
    get-put_each :
        (xs : List A) (rest : Bytes) → get_each (length xs) (put_each xs ++ rest) ≡ some (xs, rest)
    unfolding get_each put_each
    get-put_each [] rest = refl
    get-put_each (x ∷ xs) rest =
        simp (
          append_assoc (put x) (put_each xs) rest,
          law x (put_each xs ++ rest),
          get-put_each xs rest,
        )

    get-put_list : (xs : List A) (rest : Bytes) → get_list (put_list xs ++ rest) ≡ some (xs, rest)
    unfolding get_list put_list
    get-put_list xs rest = get-put_each xs rest

unfoldable pub put_pair : Text × Text → Bytes
put_pair p = put_bytes p.0 ++ put_bytes p.1

unfoldable pub get_pair : Decoder (Text × Text)
get_pair input = get_bytes input >>? λ k more. get_bytes more >>? λ v rest. some ((k, v), rest)

get-put_pair : (p : Text × Text) (rest : Bytes) → get_pair (put_pair p ++ rest) ≡ some (p, rest)
unfolding get_pair put_pair
get-put_pair p rest = simp (append_assoc, get-put_bytes)

unfoldable pub put_entry : IndexEntry → Bytes
put_entry e = put_bytes e.id ++ put_list put_bytes get_bytes e.attr_hashes

unfoldable pub get_entry : Decoder IndexEntry
get_entry input = get_bytes input >>? λ id r1. get_list put_bytes get_bytes r1 >>? λ hashes r2.
    some (record { id = id; attr_hashes = hashes }, r2)

get-put_entry : (e : IndexEntry) (rest : Bytes) → get_entry (put_entry e ++ rest) ≡ some (e, rest)
unfolding get_entry put_entry
get-put_entry e rest =
    simp (append_assoc, get-put_bytes, get-put_list put_bytes get_bytes get-put_bytes)

unfoldable pub put_item : Item → Bytes
put_item i =
    put_bytes i.id
    ++ (put_bytes i.label
        ++ (put_list put_pair get_pair i.attributes
            ++ (put_bytes i.secret
                ++ (put_bytes i.content_type ++ (put_number i.created ++ put_number i.modified)))))

unfoldable pub get_item : Decoder Item
get_item input = get_bytes input >>? λ id r1. get_bytes r1 >>? λ label r2.
    get_list put_pair get_pair r2 >>? λ attributes r3. get_bytes r3 >>? λ secret r4.
    get_bytes r4 >>? λ content_type r5. get_number r5 >>? λ created r6.
    get_number r6 >>? λ modified r7. some (
      record {
        id = id;
        label = label;
        attributes = attributes;
        secret = secret;
        content_type = content_type;
        created = created;
        modified = modified;
      },
      r7,
    )

get-put_item : (i : Item) (rest : Bytes) → get_item (put_item i ++ rest) ≡ some (i, rest)
unfolding get_item put_item
get-put_item i rest =
    simp (append_assoc, get-put_bytes, get-put_number, get-put_list put_pair get_pair get-put_pair)

unfoldable pub put_kdf : KdfParams → Bytes
put_kdf k = put_number k.m_cost_kib ++ (put_number k.t_cost ++ put_number k.p_cost)

unfoldable pub get_kdf : Decoder KdfParams
get_kdf input = get_number input >>? λ m r1. get_number r1 >>? λ t r2.
    get_number r2 >>? λ p r3. some (record { m_cost_kib = m; t_cost = t; p_cost = p }, r3)

get-put_kdf : (k : KdfParams) (rest : Bytes) → get_kdf (put_kdf k ++ rest) ≡ some (k, rest)
unfolding get_kdf put_kdf
get-put_kdf k rest = simp (append_assoc, get-put_number)

unfoldable pub put_header : Header → Bytes
put_header h =
    put_number h.version
    ++ (put_bytes h.label
        ++ (put_number h.created
            ++ (put_number h.modified
                ++ (put_kdf h.kdf
                    ++ (put_bytes h.salt
                        ++ (put_bytes h.index_salt
                            ++ (put_bytes h.nonce ++ put_list put_entry get_entry h.index)))))))

unfoldable pub get_header : Decoder Header
get_header input = get_number input >>? λ version r1. get_bytes r1 >>? λ label r2.
    get_number r2 >>? λ created r3. get_number r3 >>? λ modified r4. get_kdf r4 >>? λ kdf r5.
    get_bytes r5 >>? λ salt r6. get_bytes r6 >>? λ index_salt r7. get_bytes r7 >>? λ nonce r8.
    get_list put_entry get_entry r8 >>? λ index r9. some (
      record {
        version = version;
        label = label;
        created = created;
        modified = modified;
        kdf = kdf;
        salt = salt;
        index_salt = index_salt;
        nonce = nonce;
        index = index;
      },
      r9,
    )

get-put_header : (h : Header) (rest : Bytes) → get_header (put_header h ++ rest) ≡ some (h, rest)
unfolding get_header put_header
get-put_header h rest = simp (
  append_assoc,
  get-put_bytes,
  get-put_number,
  get-put_kdf,
  get-put_list put_entry get_entry get-put_entry,
)

abbrev pub first_of_pair : {A : Type 0} → Option (A × Bytes) → Option A
first_of_pair none = none
first_of_pair (some (a, rest)) = some a

-- The key, nonce and associated data in front of the text.
unfoldable pub cipher_prefix : Bytes → Bytes → Bytes → Bytes
cipher_prefix key nonce aad = put_bytes key ++ (put_bytes nonce ++ put_bytes aad)

unfoldable pub decrypt_with : Bytes → Bytes → Option Bytes
unfolding text_eq
decrypt_with prefix sealed =
    if text_eq (take (length prefix) sealed) prefix
    then some (drop (length prefix) sealed)
    else none

decrypt_with_lem : (prefix text : Bytes) → decrypt_with prefix (prefix ++ text) ≡ some text
unfolding decrypt_with
decrypt_with_lem prefix text =
    rw (take-append-length prefix text, drop-append-length prefix text, text_eq_refl prefix) refl

abbrev pub crates : Crates
crates = record {
  argon2id = λ input salt params. some (input ++ salt);
  encrypt = λ key nonce aad text. some (cipher_prefix key nonce aad ++ text);
  decrypt = λ key nonce aad sealed. decrypt_with (cipher_prefix key nonce aad) sealed;
  sha256 = λ input. input;
  header_to_vec = λ h. some (put_header h);
  header_from_bytes = get_header;
  items_to_vec = λ items. some (put_list put_item get_item items);
  items_from_bytes = λ input. first_of_pair (get_list put_item get_item input);
}

-- Named where a test runs the codec.
unfoldable pub codec : Unit {0}
unfolding put_bytes get_bytes put_number get_number put_each put_list get_each get_list put_pair
    get_pair put_entry get_entry put_item get_item put_kdf get_kdf put_header get_header
    cipher_prefix decrypt_with
codec = tt

some_eq : {a b : Bytes} → some a ≡ some b → a ≡ b
some_eq e = cc

pub crates_laws : CratesLaws crates
crates_laws = record {
  decrypt-encrypt = λ key nonce aad text sealed e.
      rw (← some_eq e) (decrypt_with_lem (cipher_prefix key nonce aad) text);
  header_from-to = λ h body rest e. rw (← some_eq e) (get-put_header h rest);
  items_from-to = λ items body e.
      rw (← some_eq e) (
        ap first_of_pair (rw append-nil at (get-put_list put_item get_item get-put_item items [])));
}
