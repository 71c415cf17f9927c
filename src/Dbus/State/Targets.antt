-- ===== src/Dbus/State/Targets.antt =====
-- What a path resolves to (src/dbus/state.rs).
use secret_manager.Base.{
  ◌≡◌, refl, sym, ap, ◌∙◌, ◌↔◌, ◌⊎◌, inl, inr, Bool, true, false, Option, none, some, if◌then◌else◌,
  Text,
}
use mathlib.Core.Path.{subst}
use secret_manager.Dbus.Paths.Build
use secret_manager.Dbus.Paths.RoundTrip.{HasSegments, path_of, parse_iff}
use secret_manager.Base.Maps.{get, contains_key}
use secret_manager.Dbus.Paths.{Target, is_segment, parse}
use secret_manager.Dbus.State.Names.{Names, named-Names}
use secret_manager.Dbus.State.{
  ServiceState, PathTarget, collection_target, broken_target, item_target, named, named_target,
  target_of, resolve_path,
}

abbrev target_id : {V : Type 0} → PathTarget V → Text
target_id (collection_target id v) = id
target_id (broken_target id) = id
target_id (item_target id v iid) = id

abbrev target_item : {V : Type 0} → PathTarget V → Option Text
target_item (collection_target id v) = none
target_item (broken_target id) = none
target_item (item_target id v iid) = some iid

abbrev target_vault : {V : Type 0} → PathTarget V → Option V
target_vault (collection_target id v) = some v
target_vault (broken_target id) = none
target_vault (item_target id v iid) = some v

found :
    {V : Type 0} {o : Option V} {v : V}
    → o ≡ some v
    → elim o [ none ↦ false | some x ↦ true ] ≡ true
found e = rw e refl

missing : {V : Type 0} {o : Option V} → o ≡ none → elim o [ none ↦ false | some x ↦ true ] ≡ false
missing e = rw e refl

module _ {V C : Type 0} where
  -- The vault is the one loaded under the id; without one, the id is that of a broken collection, and
  -- the target is the whole of it.
  pub record Reaches (st : ServiceState V C) (t : PathTarget V) : Type 0 where
    pub vault : get st.collections (target_id t) ≡ target_vault t
    pub broken :
        (contains_key st.collections (target_id t) ≡ true)
        ⊎ ((contains_key st.broken (target_id t) ≡ true) × (target_item t ≡ none))

  -- The target of an id and an item.
  abbrev Fits : ServiceState V C → Text → Option Text → PathTarget V → Type 0
  Fits st cid iid t = (cid ≡ target_id t) × (iid ≡ target_item t) × Reaches st t

  target_of_inv :
      (st : ServiceState V C) (cid : Text) (o : Option V) (iid : Option Text) (t : PathTarget V)
      → get st.collections cid ≡ o
      → target_of st cid o iid ≡ some t
      → Fits st cid iid t
  unfolding target_of
  target_of_inv st cid (some v) none t g h =
      let e : collection_target cid v ≡ t = cc h in
      subst (Fits st cid none) e (refl, refl, record { vault = g; broken = inl (found g) })
  target_of_inv st cid (some v) (some iid) t g h =
      let e : item_target cid v iid ≡ t = cc h in
      subst (Fits st cid (some iid)) e (refl, refl, record { vault = g; broken = inl (found g) })
  target_of_inv st cid none none t g h = by_broken (contains_key st.broken cid) refl h
    where
      by_broken :
          (b : Bool)
          → contains_key st.broken cid ≡ b
          → (if b then some (broken_target cid) else none) ≡ some t
          → Fits st cid none t
      by_broken true e h =
          let same : broken_target cid ≡ t = cc h in
          subst (Fits st cid none) same (refl, refl, record { vault = g; broken = inr (e, refl) })
      by_broken false e h = cc h
  target_of_inv st cid none (some iid) t g h = cc h

  Reaches-target_of :
      (st : ServiceState V C) (t : PathTarget V)
      → Reaches st t
      → target_of st (target_id t) (get st.collections (target_id t)) (target_item t) ≡ some t
  unfolding target_of
  Reaches-target_of st (collection_target id v) h = rw h.vault refl
  Reaches-target_of st (item_target id v iid) h = rw h.vault refl
  Reaches-target_of st (broken_target id) h = elim h.broken [
    | inl e ↦ absurd (cc (e, missing h.vault))
    | inr (e, _) ↦ rw h.vault (rw e refl)
  ]

  -- A path resolves to a target exactly when it is the path of a collection or an item, by its id or
  -- by an alias, whose parts are segments and which names the target's id and item (an alias the id
  -- that the table has for it, where that collection is loaded), and the target's vault is the one
  -- loaded under that id; a target without a vault is a whole collection that is broken.
  pub resolve_path-Reaches :
      (st : ServiceState V C) (path : Text) (t : PathTarget V)
      → (resolve_path st path ≡ some t) ↔ (
          (n : Target) × HasSegments n
          × (path ≡ path_of n)
          × Names st n (target_id t) (target_item t)
          × Reaches st t)
  unfolding resolve_path named named_target
  resolve_path-Reaches st path t = (
    λ h. by_target (parse path) refl h,
    λ (n, s, e, names, reaches).
        ap (λ o. named_target st (named st o)) ((parse_iff path n).1 (s, e))
        ∙ ap (named_target st) ((named-Names st n (target_id t) (target_item t)).1 names)
        ∙ Reaches-target_of st t reaches,
  )
    where
      nothing :
          named_target st (named st none) ≡ some t
          → (n : Target) × HasSegments n
            × (path ≡ path_of n)
            × Names st n (target_id t) (target_item t)
            × Reaches st t
      nothing h = cc h

      by_name :
          (n : Target)
          → HasSegments n × (path ≡ path_of n)
          → (o : Option (Text × Option Text)) → named st (some n) ≡ o
          → named_target st o ≡ some t
          → (n : Target) × HasSegments n
            × (path ≡ path_of n)
            × Names st n (target_id t) (target_item t)
            × Reaches st t
      by_name n p none e h = cc h
      by_name n p (some (cid, iid)) e h =
          let f = target_of_inv st cid (get st.collections cid) iid t refl h in
          let k : named st (some n) ≡ some (target_id t, target_item t) = rw (sym f.0, sym f.1) e in
          (n, p.0, p.1, (named-Names st n (target_id t) (target_item t)).0 k, f.2)

      by_target :
          (o : Option Target)
          → parse path ≡ o
          → named_target st (named st o) ≡ some t
          → (n : Target) × HasSegments n
            × (path ≡ path_of n)
            × Names st n (target_id t) (target_item t)
            × Reaches st t
      by_target none e h = nothing h
      by_target (some n) e h = by_name n ((parse_iff path n).0 e) (named st (some n)) refl h

  -- The paths that the service gives out for a loaded collection and for its items resolve to them.
  pub resolve_path-item :
      (st : ServiceState V C) (cid iid : Text) (v : V)
      → is_segment cid ≡ true
      → is_segment iid ≡ true
      → get st.collections cid ≡ some v
      → (resolve_path st (Build.collection cid) ≡ some (collection_target cid v))
        × (resolve_path st (Build.item cid iid) ≡ some (item_target cid v iid))
  unfolding resolve_path named named_target target_of Build.collection Build.item
  resolve_path-item st cid iid v c i g = (
    ap (λ o. named_target st (named st o)) ((parse_iff _ (Target.collection cid)).1 (c, refl))
        ∙ ap (λ o. target_of st cid o none) g,
    ap (λ o. named_target st (named st o)) ((parse_iff _ (Target.item cid iid)).1 ((c, i), refl))
        ∙ ap (λ o. target_of st cid o (some iid)) g,
  )
