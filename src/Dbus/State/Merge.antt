-- ===== src/Dbus/State/Merge.antt =====
-- What a scan changes (src/dbus/state.rs).
use secret_manager.Base.{
  ◌≡◌, refl, ap, ◌∙◌, ◌⊎◌, inl, inr, Bool, true, false, none, some, List, [], ◌∷◌, arith,
  if◌then◌else◌, Bool-cases, any, Text, text_eq, text_eq_iff, Result, ok, err,
}
use secret_manager.Base.Maps.{Map, get, insert_key, retain_keys, get-insert_key}
use secret_manager.Dbus.Aliases.{AliasError, Table, AliasTable, degrade, known}
use secret_manager.Dbus.State.{
  ServiceState, VaultScan, merge_opened, merge_broken, merge_aliases, merge_scan,
}

get-retain_keys :
    {A : Type 0} (p : Text → Bool) (m : Map A) (k : Text)
    → get (retain_keys p m) k ≡ (if p k then get m k else none)
unfolding get retain_keys
get-retain_keys p [] k = ground arith
get-retain_keys p ((j, v) ∷ m) k = ground (arith, get-retain_keys p m k, text_eq_iff j k)

abbrev pub table_after : Result AliasError Table → Table → Table
table_after (ok table) old = table
table_after (err reason) old = old

known-merge_aliases :
    (r : Result AliasError Table) (t : AliasTable)
    → known (merge_aliases r t) ≡ table_after r (known t)
unfolding known degrade
known-merge_aliases (ok table) t = refl
known-merge_aliases (err reason) t = refl

module _ {V C : Type 0} where
  -- A loaded vault that the scan did not open again stays as it is.
  merge_opened-collections :
      (opened : Map V) (st : ServiceState V C) (new_ids : List Text) (id : Text)
      → get opened id ≡ none
      → get (merge_opened opened (st, new_ids)).0.collections id ≡ get st.collections id
  unfolding merge_opened get
  merge_opened-collections [] st new_ids id h = refl
  merge_opened-collections ((k, v) ∷ rest) st new_ids id h =
      by_key (text_eq k id) refl (merge_opened-collections rest _ _ id) h
    where
      by_key :
          (same : Bool)
          → text_eq k id ≡ same
          → (get rest id ≡ none
              → get (merge_opened ((k, v) ∷ rest) (st, new_ids)).0.collections id
                ≡ get (insert_key k v st.collections) id)
          → (if same then some v else get rest id) ≡ none
          → get (merge_opened ((k, v) ∷ rest) (st, new_ids)).0.collections id
            ≡ get st.collections id
      by_key true e ih h = cc h
      by_key false e ih h =
          ih h
          ∙ get-insert_key k id v st.collections
          ∙ ap (λ (b : Bool). if b then some v else get st.collections id) e

  merge_opened-aliases :
      (opened : Map V) (st : ServiceState V C) (new_ids : List Text)
      → (merge_opened opened (st, new_ids)).0.aliases ≡ st.aliases
  unfolding merge_opened
  merge_opened-aliases [] st new_ids = refl
  merge_opened-aliases ((k, v) ∷ rest) st new_ids = merge_opened-aliases rest _ _

  merge_broken-same :
      (broken : List (Text × (Text × Text))) (st : ServiceState V C) (new_ids : List Text)
      → ((merge_broken broken (st, new_ids)).0.collections ≡ st.collections)
        × ((merge_broken broken (st, new_ids)).0.aliases ≡ st.aliases)
  unfolding merge_broken
  merge_broken-same [] st new_ids = (refl, refl)
  merge_broken-same ((id, why) ∷ rest) st new_ids =
      merge_broken-same rest (record st { broken = insert_key id why st.broken }) _

  -- A scan leaves every loaded vault that it did not open as it is, keeps the aliases that are known
  -- where it could not read the table, and keeps as broken only what is in the directory.
  pub merge_scan-keeps :
      (scan : VaultScan V) (st : ServiceState V C) (id : Text)
      → get scan.opened id ≡ none
      → (get (merge_scan scan st).0.collections id ≡ get st.collections id)
        × (known (merge_scan scan st).0.aliases ≡ table_after scan.aliases (known st.aliases))
        × ((any (text_eq id) scan.seen ≡ true) ⊎ (get (merge_scan scan st).0.broken id ≡ none))
  unfolding merge_scan
  merge_scan-keeps scan st id h =
      let (st1, new_ids) = merge_opened scan.opened (st, []) in
      let (c, a) = merge_broken-same scan.broken st1 new_ids in
      let st2 = (merge_broken scan.broken (st1, new_ids)).0 in
      (
        ap (λ m. get m id) c ∙ merge_opened-collections scan.opened st [] id h,
        known-merge_aliases scan.aliases st2.aliases
            ∙ ap (λ t. table_after scan.aliases (known t))
                (a ∙ merge_opened-aliases scan.opened st []),
        elim (Bool-cases (any (text_eq id) scan.seen)) [
          | inl e ↦ inl e
          | inr e ↦ inr (
              get-retain_keys (λ i. any (text_eq i) scan.seen) st2.broken id
              ∙ ap (λ (b : Bool). if b then get st2.broken id else none) e)
        ],
      )
