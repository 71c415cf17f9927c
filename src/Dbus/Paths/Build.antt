-- ===== src/Dbus/Paths/Build.antt =====
-- The paths that the service gives out (src/dbus/paths.rs). Each part is a segment where these are
-- called: the source panics on any other.
use secret_manager.Base.{Option, none, some, ◌∷◌, ◌++◌, if◌then◌else◌, Text}
use secret_manager.Dbus.Paths.{collections_prefix, aliases_prefix, is_segment}

unfoldable pub collection : Text → Text
collection id = collections_prefix ++ id

unfoldable pub item : Text → Text → Text
item collection_id item_id = collections_prefix ++ (collection_id ++ (b'/' ∷ item_id))

unfoldable pub alias : Text → Option Text
alias name = if is_segment name then some (aliases_prefix ++ name) else none
