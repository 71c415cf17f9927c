-- ===== src/Tests/LabelRuns.antt =====
-- The id of a label, at concrete labels.
use secret_manager.Base.{◌≡◌, refl, bytes}
use secret_manager.Vault.CollectionId.{collection_id_from_label}
use secret_manager.Vault.CollectionId.Safe.{IsCollectionId, collection_id_from_label-IsCollectionId}

id_of_label : collection_id_from_label (bytes "My  Keys! ") ≡ bytes "my_keys"
unfolding collection_id_from_label secret_manager.Utf8.chars
id_of_label = refl

id_of_signs : collection_id_from_label (bytes " ?! ") ≡ bytes "collection"
unfolding collection_id_from_label secret_manager.Utf8.chars
id_of_signs = refl

collection_id_from_label-IsCollectionId_example :
    IsCollectionId (collection_id_from_label (bytes "My  Keys! "))
collection_id_from_label-IsCollectionId_example =
    collection_id_from_label-IsCollectionId (bytes "My  Keys! ")
