-- ===== src/Dbus/State/Names.antt =====
-- What a target of an object path names in the state, alias paths through the table
-- (src/dbus/state.rs).
use secret_manager.Base.{
  ◌≡◌, refl, sym, ap, ◌∙◌, ◌↔◌, ◌⊎◌, inl, inr, Bool, true, false, Option, none, some, Option-cases,
  if◌then◌else◌, Text, ok, err,
}
use mathlib.Core.Path.{subst}
use secret_manager.Base.Maps.{get, contains_key}
use secret_manager.Dbus.Paths.{Target}
use secret_manager.Dbus.Aliases.{
  AliasError, AliasTable, usable, degraded, known, resolve, resolve_known,
}
use secret_manager.Dbus.State.{ServiceState, or_none, with_item, filter_loaded, alias_target, named}

resolve-known :
    (t : AliasTable) (a id : Text) → get (known t) a ≡ some id → resolve t a ≡ ok (some id)
unfolding resolve known
resolve-known (usable table) a id h = ap ok h
resolve-known (degraded reason table) a id h = ap (resolve_known reason) h

resolve-unknown :
    (t : AliasTable) (a : Text)
    → get (known t) a ≡ none
    → (resolve t a ≡ ok none) ⊎ ((reason : AliasError) × (resolve t a ≡ err reason))
unfolding resolve known
resolve-unknown (usable table) a h = inl (ap ok h)
resolve-unknown (degraded reason table) a h = inr (reason, ap (resolve_known reason) h)

with_item_iff :
    (o : Option Text) (iid : Option Text) (id : Text) (jid : Option Text)
    → (with_item o iid ≡ some (id, jid)) ↔ ((o ≡ some id) × (jid ≡ iid))
with_item_iff none iid id jid = (λ h. cc h, λ k. cc k.0)
with_item_iff (some x) iid id jid = (λ h. (cc h, cc h), λ k. cc (k.0, k.1))

module _ {V C : Type 0} where
  -- The collection id and the item that a target of a path stands for: its own id, or the id that the
  -- table has for its alias if the collection is loaded.
  abbrev pub Names : ServiceState V C → Target → Text → Option Text → Type 0
  Names st (Target.collection c) id iid = (id ≡ c) × (iid ≡ none)
  Names st (Target.item c i) id iid = (id ≡ c) × (iid ≡ some i)
  Names st (Target.alias a) id iid =
      (get (known st.aliases) a ≡ some id) × (contains_key st.collections id ≡ true) × (iid ≡ none)
  Names st (Target.alias_item a i) id iid =
      (get (known st.aliases) a ≡ some id)
      × (contains_key st.collections id ≡ true)
      × (iid ≡ some i)

  alias_target-known :
      (st : ServiceState V C) (a id : Text)
      → get (known st.aliases) a ≡ some id
      → or_none (alias_target st a) ≡ filter_loaded st (some id)
  unfolding alias_target
  alias_target-known st a id h = rw (resolve-known st.aliases a id h, or_none) refl

  alias_target-unknown :
      (st : ServiceState V C) (a : Text)
      → get (known st.aliases) a ≡ none
      → or_none (alias_target st a) ≡ none
  unfolding alias_target
  alias_target-unknown st a h = elim (resolve-unknown st.aliases a h) [
    | inl e ↦ rw (e, or_none) refl
    | inr (reason, e) ↦ rw (e, or_none) refl
  ]

  -- What an alias stands for is what the table has for it, if that is loaded.
  alias_target_iff :
      (st : ServiceState V C) (a id : Text)
      → (or_none (alias_target st a) ≡ some id)
        ↔ ((get (known st.aliases) a ≡ some id) × (contains_key st.collections id ≡ true))
  alias_target_iff st a id = elim (Option-cases (get (known st.aliases) a)) [
    | inl e ↦ (λ h. cc (h, alias_target-unknown st a e), λ k. cc (e, k.0))
    | inr (x, e) ↦
        let known_x = alias_target-known st a x e in
        (
          λ h. loaded_inv x e (contains_key st.collections x) refl (sym known_x ∙ h),
          λ k. let same : x ≡ id = cc (e, k.0) in known_x ∙ rw same (rw k.1 refl),
        )
  ]
    where
      loaded_inv :
          (x : Text)
          → get (known st.aliases) a ≡ some x
          → (b : Bool) → contains_key st.collections x ≡ b
          → (if b then some x else none) ≡ some id
          → (get (known st.aliases) a ≡ some id) × (contains_key st.collections id ≡ true)
      loaded_inv x e true c h =
          let same : x ≡ id = cc h in
          (e ∙ ap some same, subst (λ y. contains_key st.collections y ≡ true) same c)
      loaded_inv x e false c h = cc h

  pub named-Names :
      (st : ServiceState V C) (n : Target) (id : Text) (iid : Option Text)
      → (named st (some n) ≡ some (id, iid)) ↔ Names st n id iid
  unfolding named
  named-Names st (Target.collection c) id iid = (λ h. (cc h, cc h), λ k. cc (k.0, k.1))
  named-Names st (Target.item c i) id iid = (λ h. (cc h, cc h), λ k. cc (k.0, k.1))
  named-Names st (Target.alias a) id iid =
      let w = with_item_iff (or_none (alias_target st a)) none id iid in
      let t = alias_target_iff st a id in
      (λ h. let k = w.0 h in let l = t.0 k.0 in (l.0, l.1, k.1), λ k. w.1 (t.1 (k.0, k.1), k.2))
  named-Names st (Target.alias_item a i) id iid =
      let w = with_item_iff (or_none (alias_target st a)) (some i) id iid in
      let t = alias_target_iff st a id in
      (λ h. let k = w.0 h in let l = t.0 k.0 in (l.0, l.1, k.1), λ k. w.1 (t.1 (k.0, k.1), k.2))
