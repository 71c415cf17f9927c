-- ===== src/Dbus/Aliases/Quiet.antt =====
-- An update of the aliases that nothing interferes with (src/dbus/state.rs).
use secret_manager.Base.{
  ℕ, ◌+◌, ◌*◌, ◌≡◌, refl, ap, ◌∙◌, ◌⊎◌, inl, inr, Option, none, some, Bytes, Text, Result, ok, err,
}
use secret_manager.Vault.Types.{IoError}
use secret_manager.Vault.Os.{FilePath, Io, Os, OsLaws, Same}
use secret_manager.Vault.Publish.{ensure_vault_dir}
use secret_manager.Vault.Publish.Atomic.{atomic_write-Published, ensure_vault_dir-Same}
use secret_manager.Dbus.Aliases.{
  Table, AliasTable, usable, writable, OnWriteError, refuse, keep, AliasUpdate, committed,
  not_written, alias_file, Shared, save_in_dir, save_aliases_to, write_next, settle_failed, settle,
  checked, edited, based, attempt, update_from, update_aliases,
}
use secret_manager.Dbus.Aliases.Update.{table_eq_iff}

module _ {World : Type 0} (os : Os World) (file : World → FilePath → Option Bytes)
    (laws : OsLaws os file) (to_toml : Table → Option Bytes) (dir : Text) where
  -- A table that was saved is the content of the file; one that was not has left the file as it was.
  pub record Saved (table : Table) (w : World) (r : Io World) : Type 0 where
    pub done :
        r.0 ≡ ok tt
        → (text : Bytes) × (to_toml table ≡ some text) × (file r.1 (alias_file dir) ≡ some text)
    pub failed : (e : IoError) → r.0 ≡ err e → file r.1 (alias_file dir) ≡ file w (alias_file dir)

  save_in_dir-Saved :
      (table : Table) (text : Option Bytes) (w : World) (r : Io World)
      → to_toml table ≡ text
      → Same file w r.1
      → Saved table w (save_in_dir os to_toml dir text r)
  unfolding save_in_dir
  save_in_dir-Saved table text w (err e, w1) t same = record {
    done = λ h. cc;
    failed = λ x h. same (alias_file dir);
  }
  save_in_dir-Saved table none w (ok tt, w1) t same = record {
    done = λ h. cc;
    failed = λ x h. same (alias_file dir);
  }
  save_in_dir-Saved table (some text) w (ok tt, w1) t same =
      let p = atomic_write-Published os file laws (alias_file dir) text w1 in
      record {
        done = λ h. (text, t, (p.done h).0);
        failed = λ e h. p.failed e h ∙ same (alias_file dir);
      }

  pub save_aliases_to-Saved :
      (table : Table) (w : World) → Saved table w (save_aliases_to os to_toml dir table w)
  unfolding save_aliases_to
  save_aliases_to-Saved table w =
      save_in_dir-Saved table (to_toml table) w (ensure_vault_dir os dir w) refl
        (ensure_vault_dir-Same os file laws dir w)

  module _ {Rest E : Type 0} (on_write_error : OnWriteError)
      (edit : Shared World Rest → Table → Result E Table)
      (between : ℕ → Shared World Rest → Shared World Rest) where
    abbrev after : World → Shared World Rest → AliasTable → Shared World Rest
    after w s t = record s { aliases = t; world = w }

    -- The table after a write that failed.
    abbrev table_kept : OnWriteError → AliasTable → Table → AliasTable
    table_kept refuse old next = old
    table_kept keep old next = usable next

    abbrev saved : Shared World Rest → Table → Io World
    saved s next = save_aliases_to os to_toml dir next s.world

    quiet_attempt :
        (again : Table
          → Result IoError (Unit {0}) × Shared World Rest
          → AliasUpdate E × Shared World Rest)
        (n : ℕ) (s : Shared World Rest) (base next : Table)
        → ((n : ℕ) (x : Shared World Rest) → between n x ≡ x)
        → writable s.aliases ≡ ok base
        → edit s base ≡ ok next
        → attempt os to_toml dir on_write_error edit between again n s
          ≡ settle os to_toml dir on_write_error edit between next
              ((saved s next).0, record s { world = (saved s next).1 })
    unfolding attempt based edited write_next checked
    quiet_attempt again n s base next quiet b m =
        rw
          (
            b,
            m,
            quiet (3 * n) s,
            quiet (3 * n + 1) (record s { world = (saved s next).1 }),
            b,
            (table_eq_iff base base).1 refl,
          )
          refl

    settle_failed-table_kept :
        (o : OnWriteError) (next : Table) (s : Shared World Rest) (w : World)
        → settle_failed os to_toml dir on_write_error edit between o next (record s { world = w })
          ≡ after w s (table_kept o s.aliases next)
    unfolding settle_failed
    settle_failed-table_kept refuse next s w = refl
    settle_failed-table_kept keep next s w = refl

    -- How an update ends that nothing interferes with.
    pub record Done (s : Shared World Rest) (next : Table) (w : World)
        (r : AliasUpdate E × Shared World Rest) : Type 0 where
      pub text : Bytes
      pub reported : r ≡ (committed, after w s (usable next))
      pub printed : to_toml next ≡ some text
      pub on_disk : file w (alias_file dir) ≡ some text

    pub record Failed (s : Shared World Rest) (next : Table) (w : World)
        (r : AliasUpdate E × Shared World Rest) : Type 0 where
      pub error : IoError
      pub reported : r ≡ (not_written error, after w s (table_kept on_write_error s.aliases next))
      pub on_disk : file w (alias_file dir) ≡ file s.world (alias_file dir)

    settle-Saved :
        (s : Shared World Rest) (next : Table) (r : Io World)
        → Saved next s.world r
        → Done s next r.1
            (settle os to_toml dir on_write_error edit between next (r.0, record s { world = r.1 }))
          ⊎ Failed s next r.1 (
              settle os to_toml dir on_write_error edit between next
                (r.0, record s { world = r.1 }))
    unfolding settle
    settle-Saved s next (ok tt, w) t =
        let (text, printed, on_disk) = t.done refl in
        inl (record { text = text; reported = refl; printed = printed; on_disk = on_disk })
    settle-Saved s next (err e, w) t = inr (record {
      error = e;
      reported =
          ap (λ (x : Shared World Rest). (not_written e, x))
            (settle_failed-table_kept on_write_error next s w);
      on_disk = t.failed e refl;
    })

    -- Where no other task changes the state meanwhile, the table is readable and the edit accepted,
    -- the update ends with the file holding the edited table and that table in memory, or with the
    -- write's error and the file as it was, and in memory the old table or, under `Keep`, the new one.
    pub update_aliases-quiet :
        (s : Shared World Rest) (base next : Table)
        → ((n : ℕ) (x : Shared World Rest) → between n x ≡ x)
        → writable s.aliases ≡ ok base
        → edit s base ≡ ok next
        → let r = update_aliases os to_toml dir on_write_error edit between s in
          Done s next (saved s next).1 r ⊎ Failed s next (saved s next).1 r
    unfolding update_aliases update_from
    update_aliases-quiet s base next quiet b m =
        rw
          (quiet_attempt
            (λ t p.
              update_from os to_toml dir on_write_error edit between 6 (between (3 * 7 + 2) p.1))
            7 s base next quiet b m)
          (settle-Saved s next (saved s next) (save_aliases_to-Saved next s.world))
