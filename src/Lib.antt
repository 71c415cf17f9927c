-- ===== src/Lib.antt =====
-- secret-manager keeps secrets for a desktop session. A daemon serves the Secret Service over D-Bus
-- and a control socket; each collection is one encrypted file. This library models the part that
-- keeps the secrets, the vault (src/vault of the repository) and the atomic writes under it
-- (src/atomic.rs), the frames of the control socket (src/protocol.rs) and the escaping of untrusted
-- text (src/sanitize.rs); and, of the service on the bus, the daemon's state (src/dbus/state.rs) with
-- what clients do to it, the object paths (src/dbus/paths.rs) and the encryption of secrets on their
-- way over the bus (src/session), and the dialogue with the pinentry program (src/prompt).
--
-- How the parts interact. A `Vault` (src/vault/store.rs) holds a header, the ciphertext of its items
-- and, while unlocked, the key and the items. An operation changes the list in memory and calls
-- `save`, which builds the header with a fresh nonce and the index of hashed attributes
-- (src/vault/format.rs), seals the items under the header as associated data (src/vault/crypto.rs),
-- checks the size and publishes header and ciphertext with a temp file and a rename. If the save
-- fails the operation undoes its own change.
--
-- The daemon keeps one state behind a lock: the loaded vaults, each behind a lock of its own, the alias
-- table, the sessions and the prompts. A handler holds the lock for a step at a time, so the model has
-- one function for each such step and runs lists of them, in any order, for the interleavings.
--
-- The files.
--   Base: numbers, tests, lists, byte strings, results. Utf8: `str::chars` and its boundaries.
--   Sanitize: src/sanitize.rs.
--   Vault/Types: the data types of src/vault. Strings and byte strings are both lists of bytes.
--   Vault/Crates: Argon2, XChaCha20-Poly1305, SHA-256 and postcard, as functions the model takes, and
--     the two things it relies on: what was sealed opens, what was encoded is read back.
--   Vault/Os: the calls of the operating system on a state `World`, and what they do to the contents
--     of files. A write that fails may leave a part behind; no call may fail silently.
--   Vault/Caps, Vault/Format, Vault/Index: src/vault/format.rs. Vault/Kdf: src/vault/crypto.rs.
--   Vault/Publish: src/atomic.rs, and `write_temp`, `write_atomic`, `publish_new` and its fallback of
--     src/vault/store.rs. Vault/Sweep: `sweep_temp_files` and the test of temp names.
--   Vault/CollectionId: `collection_id_from_label` of src/vault/mod.rs.
--   Vault/Collection: the `Vault` in memory and its queries. Vault/Store: its save and unlock;
--     Store/Life how it is created and opened, Store/Delta, Store/Items and Store/Batch the changes of
--     items and their undo, Store/Rotate the change of the key, Store/Remove the deletion of the file.
--     A method on `&mut self` is a function from vault and world to result, vault and world.
--     Store/Saved, Coherent, Transaction, Unlock, Durable and Effects hold the proofs.
--     Store/Ops: the changes of a vault as values, and histories of them.
--   Dbus/Paths: src/dbus/paths.rs. Dbus/Ids: `unique_collection_id_in` of src/dbus/state.rs.
--   Dbus/Aliases: `AliasTable`, its file and `update_aliases` of src/dbus/state.rs. What other tasks do
--     while the update has dropped the lock is an argument, a function on the state.
--   Dbus/State: `ServiceState` of src/dbus/state.rs, its quotas, its paths and `merge_scan`.
--   Dbus/Clients: the steps on it of src/dbus/service.rs, session.rs, prompt.rs and src/daemon.rs.
--   Dbus/Search: `search_collection` of src/dbus/state.rs, over the vaults of Vault/Collection.
--   Session: src/session/mod.rs and dh.rs.
--   Pinentry: src/prompt/pinentry.rs, its escaping and, in Pinentry/Dialog, the lines sent and read;
--     Pinentry/Spell: the ways in which a pinentry may write a pin.
--   Base/Maps: `BTreeMap`. Base/Decimal, Base/BigEndian, Base/Powers: numbers as text and bytes.
--   Protocol: the framing half of src/protocol.rs; the socket calls are not modelled.
--   Tests: a concrete codec and machine that meet the assumptions, and the theorems at inputs there.
--
-- Integers are unbounded numbers; where the source casts to `u32` the model keeps `% 2 ^ 32`. The
-- loops on fuel are the binary search of Vault/Index, whose fuel is the length of the list, as the
-- interval shrinks at every step, and the search for a free id of Dbus/Ids, for which one unit more
-- than there are names in use is enough; the counters of sessions and prompts keep their
-- `% 2 ^ 64`. `BTreeMap` is a list of pairs in the order of the map, and the
-- nonce of a fresh vault is as the source writes it.
--
-- Not modelled: crashes between two system calls, logging, zeroizing, file modes beyond the calls that
-- set them, and the rest of the repository: the registration of bus objects, the pinentry process and
-- its time limits, the calls on the control socket, PAM, importers and the command line.
pub mod Base
pub mod Utf8
pub mod Sanitize
pub mod Vault
pub mod Protocol
pub mod Dbus
pub mod Session
pub mod Pinentry
mod Tests
