-- ===== src/Vault/Publish/Atomic.antt =====
-- What an atomic write leaves on disk (atomic.rs, vault/store.rs).
use secret_manager.Base.{
  ◌*◌, ◌≡◌, refl, sym, ap, ◌∙◌, ◌≢◌, inl, inr, Bool, true, false, ◌&&◌, Option, none, some, [], ◌∷◌,
  ◌++◌, arith, Bool-cases, length, length-append, Bytes, Text, bytes, text_eq, text_eq_iff,
  text_eq_refl, Result, ok, err, Result-cases,
}
use mathlib.Core.Path.{subst}
use secret_manager.Vault.Types.{IoError}
use secret_manager.Vault.Os.{FilePath, Io, Os, OsLaws, Same, SameBut}
use secret_manager.Vault.Publish.{
  hex, temp_path, on_ok, write_then_rename, finish_atomic, atomic_suffix, atomic_write,
  ensure_vault_dir, to_vault, write_atomic,
}

length-hex : (b : Bytes) → length (hex b) ≡ 2 * length b
unfolding hex
length-hex [] = refl
length-hex (x ∷ b) = omega (arith, length-hex b)

-- The temp file is never the target.
pub temp_path-ne : (path : FilePath) (suffix : Bytes) → temp_path path suffix ≢ path
unfolding temp_path
temp_path-ne path suffix e =
    let len = ap (λ (p : FilePath). length p.name) e in
    absurd (omega (arith, len, length-append path.name (bytes "." ++ (hex suffix ++ bytes ".tmp"))))

same_path : FilePath → FilePath → Bool
same_path p q = text_eq p.dir q.dir && text_eq p.name q.name

same_path-eq : (p q : FilePath) → same_path p q ≡ true → p ≡ q
unfolding same_path
same_path-eq p q h =
    let d = (text_eq_iff p.dir q.dir).0 (ground arith) in
    let n = (text_eq_iff p.name q.name).0 (ground arith) in cc (d, n)

same_path-ne : (p q : FilePath) → same_path p q ≡ false → p ≢ q
unfolding same_path
same_path-ne p q h e = cc (h, e, text_eq_refl p.dir, text_eq_refl p.name)

module _ {World : Type 0} (os : Os World) (file : World → FilePath → Option Bytes)
    (laws : OsLaws os file) where
  -- What a write that was tried may have done to the file at `path`: `target` is its new content.
  pub record Wrote (path temp : FilePath) (content : Bytes) (w : World) (r : Io World)
      : Type 0 where
    pub done : r.0 ≡ ok tt → (file r.1 path ≡ some content) × (file r.1 temp ≡ file w temp)
    pub failed : (e : IoError) → r.0 ≡ err e → file r.1 path ≡ file w path
    pub others : (q : FilePath) → q ≢ path → q ≢ temp → file r.1 q ≡ file w q

  rename_step :
      (path temp : FilePath) (content : Bytes) (w w3 : World)
      → temp ≢ path
      → file w temp ≡ none
      → file w3 temp ≡ some content
      → SameBut file temp w w3
      → Wrote path temp content w (os.rename temp path w3)
  rename_step path temp content w w3 ne fresh full same = record {
    done = λ h. let (a, b, d) = laws.rename-ok temp path w3 ne h in (a ∙ full, b ∙ sym fresh);
    failed = λ e h. laws.rename-err temp path w3 e h path ∙ same path (λ p. ne (sym p));
    others = λ q np nt. elim (Result-cases (os.rename temp path w3).0) [
      | inl (tt, h) ↦ (laws.rename-ok temp path w3 ne h).2 q nt np ∙ same q nt
      | inr (e, h) ↦ laws.rename-err temp path w3 e h q ∙ same q nt
    ];
  }

  on_ok-Wrote :
      (path temp : FilePath) (content : Bytes) (w : World) (r : Io World) (f : World → Io World)
      → path ≢ temp
      → (r.0 ≡ ok tt → Wrote path temp content w (f r.1))
      → SameBut file temp w r.1
      → Wrote path temp content w (on_ok os r f)
  on_ok-Wrote path temp content w (ok tt, w') f ne k same = k refl
  on_ok-Wrote path temp content w (err e, w') f ne k same = record {
    done = λ h. cc;
    failed = λ x h. same path ne;
    others = λ q np nt. same q nt;
  }

  create_same : (p : FilePath) (w : World) → SameBut file p w (os.create_new p w).1
  create_same p w q ne = elim (Result-cases (os.create_new p w).0) [
    | inl (tt, h) ↦ (laws.create_new-ok p w h).2 q ne
    | inr (e, h) ↦ laws.create_new-err p w e h q
  ]

  write_then_rename-Wrote :
      (path temp : FilePath) (content : Bytes) (w : World)
      → temp ≢ path
      → Wrote path temp content w (write_then_rename os temp path content w)
  unfolding write_then_rename
  write_then_rename-Wrote path temp content w ne =
      let ne' : path ≢ temp = λ p. ne (sym p) in
      let w1 = (os.create_new temp w).1 in
      let w2 = (os.write_all temp content w1).1 in
      let w3 = (os.sync_all temp w2).1 in
      let s1 = create_same temp w in
      let s2 : SameBut file temp w w2 =
        λ q nq. laws.write_all_same temp content w1 q nq ∙ s1 q nq in
      let s3 : SameBut file temp w w3 = λ q nq. laws.sync_all_same temp w2 q ∙ s2 q nq in
      on_ok-Wrote path temp content w _ _ ne'
        (λ created.
          on_ok-Wrote path temp content w _ _ ne'
            (λ written.
              on_ok-Wrote path temp content w (os.sync_all temp w2) (os.rename temp path) ne'
                (λ synced.
                  let (fresh, empty, _) = laws.create_new-ok temp w created in
                  rename_step path temp content w w3 ne fresh
                    (laws.sync_all_same temp w2 temp
                      ∙ laws.write_all-ok temp content w1 written empty)
                    s3)
                s3)
            s2)
        s1

  finish_atomic-Wrote :
      (path temp : FilePath) (content : Bytes) (w : World) (r : Io World)
      → temp ≢ path
      → Wrote path temp content w r
      → Wrote path temp content w (finish_atomic os temp path r)
  unfolding finish_atomic
  finish_atomic-Wrote path temp content w (ok tt, w') ne t =
      let same = laws.sync_dir_same path.dir w' in
      record {
        done = λ h. let (a, b) = t.done refl in (same path ∙ a, same temp ∙ b);
        failed = λ e h. cc;
        others = λ q np nt. same q ∙ t.others q np nt;
      }
  finish_atomic-Wrote path temp content w (err e, w') ne t =
      let same = laws.remove_file_same temp w' in
      record {
        done = λ h. cc;
        failed = λ x h. same path (λ p. ne (sym p)) ∙ t.failed e refl;
        others = λ q np nt. same q nt ∙ t.others q np nt;
      }

  -- A write that reports success has replaced the content of `path` and left every other file as
  -- it was; one that reports failure has left `path` as it was.
  pub record Published {E : Type 0} (path : FilePath) (content : Bytes) (w : World)
      (r : Result E (Unit {0}) × World) : Type 0 where
    pub done : r.0 ≡ ok tt → (file r.1 path ≡ some content) × SameBut file path w r.1
    pub failed : (e : E) → r.0 ≡ err e → file r.1 path ≡ file w path

  Wrote-Published :
      (path temp : FilePath) (content : Bytes) (w : World) (r : Io World)
      → Wrote path temp content w r
      → Published path content w r
  Wrote-Published path temp content w r t = record {
    done = λ h.
        let (a, b) = t.done h in
        (
          a,
          λ q nq. elim (Bool-cases (same_path q temp)) [
            | inl e ↦ subst (λ p. file r.1 p ≡ file w p) (sym (same_path-eq q temp e)) b
            | inr e ↦ t.others q nq (same_path-ne q temp e)
          ],
        );
    failed = t.failed;
  }

  moved-Published :
      {E : Type 0} (path : FilePath) (content : Bytes) (w w' : World)
      (r : Result E (Unit {0}) × World)
      → Same file w w'
      → Published path content w' r
      → Published path content w r
  moved-Published path content w w' r same t = record {
    done = λ h. let (a, b) = t.done h in (a, λ q nq. b q nq ∙ same q);
    failed = λ e h. t.failed e h ∙ same path;
  }

  refused-Published :
      {E : Type 0} (path : FilePath) (content : Bytes) (w : World) (e : E)
      → Published path content w (err e, w)
  refused-Published path content w e = record { done = λ h. cc; failed = λ x h. refl }

  atomic_suffix-Published :
      (path : FilePath) (content : Bytes) (w : World) (suffix : Option Bytes)
      → Published path content w (atomic_suffix os path content (suffix, w))
  unfolding atomic_suffix
  atomic_suffix-Published path content w none = refused-Published path content w _
  atomic_suffix-Published path content w (some suffix) =
      let temp = temp_path path suffix in
      Wrote-Published path temp content w _ (
        finish_atomic-Wrote path temp content w _ (temp_path-ne path suffix)
          (write_then_rename-Wrote path temp content w (temp_path-ne path suffix)))

  -- An atomic write is all or nothing.
  pub atomic_write-Published :
      (path : FilePath) (content : Bytes) (w : World)
      → Published path content w (atomic_write os path content w)
  unfolding atomic_write
  atomic_write-Published path content w =
      moved-Published path content w (os.random 8 w).1 _ (laws.random_same 8 w)
        (atomic_suffix-Published path content (os.random 8 w).1 (os.random 8 w).0)

  pub ensure_vault_dir-Same : (dir : Text) (w : World) → Same file w (ensure_vault_dir os dir w).1
  unfolding ensure_vault_dir
  ensure_vault_dir-Same dir w q = after_create (os.create_dir dir w) (laws.create_dir_same dir w q)
    where
      after_create :
          (r : Io World)
          → file r.1 q ≡ file w q
          → file (on_ok os r (λ w1. (ok tt, (os.set_dir_mode dir w1).1))).1 q ≡ file w q
      after_create (ok tt, w1) e = laws.set_dir_mode_same dir w1 q ∙ e
      after_create (err x, w1) e = e

  to_vault-Published :
      (path : FilePath) (content : Bytes) (w : World) (r : Io World)
      → Published path content w r
      → Published path content w (to_vault os r)
  to_vault-Published path content w (ok tt, w') t = record {
    done = λ h. t.done refl;
    failed = λ e h. cc;
  }
  to_vault-Published path content w (err x, w') t = record {
    done = λ h. cc;
    failed = λ e h. t.failed x refl;
  }

  on_dir-Published :
      (path : FilePath) (content : Bytes) (w : World) (r : Io World)
      → Same file w r.1
      → Published path content w (on_ok os r (atomic_write os path content))
  on_dir-Published path content w (ok tt, w1) same =
      moved-Published path content w w1 _ same (atomic_write-Published path content w1)
  on_dir-Published path content w (err x, w1) same =
      moved-Published path content w w1 _ same (refused-Published path content w1 x)

  -- So is the write of a vault, which creates its directory first.
  pub write_atomic-Published :
      (path : FilePath) (content : Bytes) (w : World)
      → Published path content w (write_atomic os path content w)
  unfolding write_atomic
  write_atomic-Published path content w = to_vault-Published path content w _ (
      on_dir-Published path content w (ensure_vault_dir os path.dir w)
        (ensure_vault_dir-Same path.dir w))
