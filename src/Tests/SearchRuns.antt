-- ===== src/Tests/SearchRuns.antt =====
-- The theorem on searching a locked collection, at the collection of the tests.
use secret_manager.Base.{◌≡◌, refl, inl, true, [], ◌∷◌, text_eq}
use secret_manager.Vault.Index.{build_index}
use secret_manager.Vault.Index.Sorted.{Has}
use secret_manager.Vault.Collection.{lock, search, has_pair, keep, get_attribute, items_of}
use secret_manager.Dbus.Search.{search_collection}
use secret_manager.Dbus.Search.Covers.{search_collection-lock}
use secret_manager.Tests.Codec.{crates}
use secret_manager.Tests.Vaults.{mail, old_key, saved, saving}

indexed : saved.header.index ≡ build_index crates saved.header.index_salt (mail ∷ []) true
unfolding saving
indexed = refl

finds : Has (search_collection crates saved mail.attributes) mail.id
unfolding saving search_collection search has_pair keep get_attribute items_of text_eq
finds = inl refl

search_collection-lock_example : Has (search_collection crates (lock saved) mail.attributes) mail.id
unfolding saving
search_collection-lock_example =
    search_collection-lock crates saved old_key (mail ∷ []) mail.attributes mail.id refl indexed
      finds
