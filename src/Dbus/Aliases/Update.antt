-- ===== src/Dbus/Aliases/Update.antt =====
-- What an update of the aliases that reports success has done (src/dbus/state.rs).
use secret_manager.Base.{
  ℕ, zero, suc, ◌+◌, ◌*◌, ◌≡◌, refl, ap, ◌∙◌, ◌↔◌, ◌⊎◌, inl, inr, Bool, true, false, Option, [],
  ◌∷◌, arith, if◌then◌else◌, Bytes, Text, text_eq, text_eq_iff, Result, ok, err,
}
use secret_manager.Vault.Types.{IoError}
use secret_manager.Vault.Os.{Os}
use secret_manager.Dbus.Aliases.{
  AliasError, Table, usable, writable, table_eq, OnWriteError, AliasUpdate, committed, Shared,
  write_next, settle, checked, edited, based, attempt, update_from, update_aliases,
}

pub table_eq_iff : (a b : Table) → (table_eq a b ≡ true) ↔ (a ≡ b)
unfolding table_eq
table_eq_iff [] [] = (λ h. refl, λ h. refl)
table_eq_iff [] (y ∷ b) = (λ h. cc h, λ h. cc h)
table_eq_iff (x ∷ a) [] = (λ h. cc h, λ h. cc h)
table_eq_iff ((j, v) ∷ a) ((k, w) ∷ b) =
    let ih = table_eq_iff a b in
    let jk = text_eq_iff j k in
    let vw = text_eq_iff v w in
    (
      λ h.
          let e1 : text_eq j k ≡ true = ground (arith, h) in
          let e2 : text_eq v w ≡ true = ground (arith, h) in
          let e3 : table_eq a b ≡ true = ground (arith, h) in cc (jk.0 e1, vw.0 e2, ih.0 e3),
      λ h.
          let e1 : text_eq j k ≡ true = jk.1 (cc h) in
          let e2 : text_eq v w ≡ true = vw.1 (cc h) in
          let e3 : table_eq a b ≡ true = ih.1 (cc h) in ground arith,
    )

module _ {World : Type 0} (os : Os World) (to_toml : Table → Option Bytes) (dir : Text)
    {Rest E : Type 0} (on_write_error : OnWriteError)
    (edit : Shared World Rest → Table → Result E Table)
    (between : ℕ → Shared World Rest → Shared World Rest) where
  abbrev written_next :
      ℕ → Table → Shared World Rest → Result IoError (Unit {0}) × Shared World Rest
  written_next = write_next os to_toml dir on_write_error edit between

  -- The attempt that committed, `left` attempts before the last one: it edited the table that was in
  -- memory when it began and wrote the result, and, unless no attempt was left, the table in memory
  -- was still that one when it was replaced.
  pub record Commit (final : Shared World Rest) : Type 0 where
    pub left : ℕ
    pub before : Shared World Rest
    pub base : Table
    pub next : Table
    pub read : writable before.aliases ≡ ok base
    pub made : edit before base ≡ ok next
    pub stored : (written_next left next before).0 ≡ ok tt
    pub unchanged : (left ≡ 0) ⊎ (writable (written_next left next before).1.aliases ≡ ok base)
    pub result : final ≡ record (written_next left next before).1 { aliases = usable next }

  abbrev Outcome : Type 0
  Outcome = AliasUpdate E × Shared World Rest

  settle-committed :
      (next : Table) (p : Result IoError (Unit {0}) × Shared World Rest)
      → (settle os to_toml dir on_write_error edit between next p).0 ≡ committed
      → (p.0 ≡ ok tt)
        × ((settle os to_toml dir on_write_error edit between next p).1
            ≡ record p.1 { aliases = usable next })
  unfolding settle
  settle-committed next (ok tt, s) h = (refl, refl)
  settle-committed next (err e, s) h = cc h

  -- What is left to show of an attempt is what follows it when it is redone.
  attempt-Commit :
      (again : Table → Result IoError (Unit {0}) × Shared World Rest → Outcome) (n : ℕ)
      (s : Shared World Rest)
      → ((base next : Table)
          → writable s.aliases ≡ ok base
          → edit s base ≡ ok next
          → (again next (written_next n next s)).0 ≡ committed
          → Commit (again next (written_next n next s)).1)
      → (attempt os to_toml dir on_write_error edit between again n s).0 ≡ committed
      → Commit (attempt os to_toml dir on_write_error edit between again n s).1
  unfolding attempt checked edited based
  attempt-Commit again n s k h = from_read (writable s.aliases) refl h
    where
      settled : Table → Outcome
      settled next = settle os to_toml dir on_write_error edit between next (written_next n next s)

      from_test :
          (base next current : Table)
          → writable s.aliases ≡ ok base
          → edit s base ≡ ok next
          → writable (written_next n next s).1.aliases ≡ ok current
          → (same : Bool) → table_eq current base ≡ same
          → (if same then settled next else again next (written_next n next s)).0 ≡ committed
          → Commit (if same then settled next else again next (written_next n next s)).1
      from_test base next current b m c true e h =
          let (stored, result) = settle-committed next (written_next n next s) h in
          record {
            left = n;
            before = s;
            base = base;
            next = next;
            read = b;
            made = m;
            stored = stored;
            unchanged = inr (c ∙ ap ok ((table_eq_iff current base).0 e));
            result = result;
          }
      from_test base next current b m c false e h = k base next b m h

      from_checked :
          (base next : Table) (current : Result AliasError Table)
          → writable s.aliases ≡ ok base
          → edit s base ≡ ok next
          → writable (written_next n next s).1.aliases ≡ current
          → (checked os to_toml dir on_write_error edit between again base next
              (written_next n next s)
              current).0
            ≡ committed
          → Commit
              (checked os to_toml dir on_write_error edit between again base next
                (written_next n next s)
                current).1
      from_checked base next (err e) b m c h = cc h
      from_checked base next (ok current) b m c h =
          from_test base next current b m c (table_eq current base) refl h

      from_edit :
          (base : Table) (r : Result E Table)
          → writable s.aliases ≡ ok base
          → edit s base ≡ r
          → (edited os to_toml dir on_write_error edit between again n base s r).0 ≡ committed
          → Commit (edited os to_toml dir on_write_error edit between again n base s r).1
      from_edit base (err e) b m h = cc h
      from_edit base (ok next) b m h =
          from_checked base next (writable (written_next n next s).1.aliases) b m refl h

      from_read :
          (r : Result AliasError Table)
          → writable s.aliases ≡ r
          → (based os to_toml dir on_write_error edit between again n s r).0 ≡ committed
          → Commit (based os to_toml dir on_write_error edit between again n s r).1
      from_read (err e) b h = cc h
      from_read (ok base) b h = from_edit base (edit s base) b refl h

  update_from-Commit :
      (n : ℕ) (s : Shared World Rest)
      → (update_from os to_toml dir on_write_error edit between n s).0 ≡ committed
      → Commit (update_from os to_toml dir on_write_error edit between n s).1
  unfolding update_from
  update_from-Commit zero s h =
      attempt-Commit (settle os to_toml dir on_write_error edit between) 0 s
        (λ base next b m c.
          let (stored, result) = settle-committed next (written_next 0 next s) c in
          record {
            left = 0;
            before = s;
            base = base;
            next = next;
            read = b;
            made = m;
            stored = stored;
            unchanged = inl refl;
            result = result;
          })
        h
  update_from-Commit (suc n) s h =
      attempt-Commit
        (λ next p.
          update_from os to_toml dir on_write_error edit between n (between (3 * suc n + 2) p.1))
        (suc n) s
        (λ base next b m c.
          update_from-Commit n (between (3 * suc n + 2) (written_next (suc n) next s).1) c)
        h

  -- However other tasks change the state while the lock is dropped, an update that reports success
  -- replaced the table in memory by the edit of that very table, after it had written it, except
  -- on the eighth attempt, which does not look whether the table has changed meanwhile.
  pub update_aliases-Commit :
      (s : Shared World Rest)
      → (update_aliases os to_toml dir on_write_error edit between s).0 ≡ committed
      → Commit (update_aliases os to_toml dir on_write_error edit between s).1
  unfolding update_aliases
  update_aliases-Commit s h = update_from-Commit 7 s h
