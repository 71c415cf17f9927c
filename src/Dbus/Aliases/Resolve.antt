-- ===== src/Dbus/Aliases/Resolve.antt =====
-- What a table that could not be read still answers (src/dbus/state.rs).
use secret_manager.Base.{
  ◌≡◌, refl, ap, ◌≢◌, ◌⊎◌, inl, inr, Option, none, some, Option-cases, Text, ok, err,
}
use secret_manager.Base.Maps.{get}
use secret_manager.Dbus.Aliases.{
  AliasError, AliasTable, usable, degraded, known, writable, resolve, resolve_known, degrade,
}

resolve_known-ne : (reason : AliasError) (o : Option Text) → resolve_known reason o ≢ ok none
resolve_known-ne reason none e = cc e
resolve_known-ne reason (some id) e = cc e

-- A name is answered "no such alias" only by a table that is readable and has no entry for it.
resolve-absent :
    (t : AliasTable) (name : Text)
    → resolve t name ≡ ok none
    → (writable t ≡ ok (known t)) × (get (known t) name ≡ none)
unfolding resolve writable known
resolve-absent (usable table) name h = (refl, cc h)
resolve-absent (degraded reason table) name h = absurd (resolve_known-ne reason (get table name) h)

-- Once a table is degraded, each name is either one that it knew, and resolves to the id that it had,
-- or is not, and is refused with the reason; none is reported free, and the table may not be written.
pub resolve-degrade :
    (t : AliasTable) (reason : AliasError) (name : Text)
    → (((id : Text) × (get (known t) name ≡ some id)
          × (resolve (degrade reason t) name ≡ ok (some id)))
        ⊎ ((get (known t) name ≡ none) × (resolve (degrade reason t) name ≡ err reason)))
      × (resolve (degrade reason t) name ≢ ok none)
      × (writable (degrade reason t) ≡ err reason)
unfolding resolve writable degrade
resolve-degrade t reason name = (
  elim (Option-cases (get (known t) name)) [
    | inl e ↦ inr (e, ap (resolve_known reason) e)
    | inr (id, e) ↦ inl (id, e, ap (resolve_known reason) e)
  ],
  resolve_known-ne reason (get (known t) name),
  refl,
)
