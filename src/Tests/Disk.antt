-- ===== src/Tests/Disk.antt =====
-- A concrete operating system: a map from paths to contents, a counter that serves as the clock and
-- as the source of random bytes and uuids. It meets the laws that the vault assumes.
use secret_manager.Base.{
  ℕ, ◌+◌, ◌%◌, ◌≡◌, refl, sym, ◌∙◌, ◌≢◌, inl, inr, Bool, true, false, ◌&&◌, Option, none, some, [],
  ◌∷◌, arith, if◌then◌else◌, Bool-cases, Option-cases, length, replicate, Bytes, text_eq,
  text_eq_iff, text_eq_refl, ok, err, ok_or,
}
use secret_manager.Vault.Types.{IoError}
use secret_manager.Vault.Os.{FilePath, Io, Os, OsLaws, Same, SameBut}

pub record Machine : Type 0 where
  pub disk : FilePath → Option Bytes
  pub clock : ℕ

unfoldable pub same_path : FilePath → FilePath → Bool
unfolding text_eq
same_path p q = text_eq p.dir q.dir && text_eq p.name q.name

abbrev pub put : FilePath → Option Bytes → Machine → Machine
put p content m = record m { disk = λ q. if same_path q p then content else m.disk q }

unfoldable pub create_new : FilePath → Machine → Io Machine
create_new p m = elim (m.disk p) [
  | none ↦ (ok tt, put p (some []) m)
  | some b ↦ (err IoError.already_exists, m)
]

unfoldable pub write_all : FilePath → Bytes → Machine → Io Machine
write_all p b m = (ok tt, put p (some b) m)

unfoldable pub rename : FilePath → FilePath → Machine → Io Machine
rename p q m = elim (m.disk p) [
  | none ↦ (err IoError.not_found, m)
  | some b ↦ (ok tt, put p none (put q (some b) m))
]

unfoldable pub rename_noreplace : FilePath → FilePath → Machine → Io Machine
rename_noreplace p q m = elim (m.disk q) [
  | none ↦ rename p q m
  | some b ↦ (err IoError.already_exists, m)
]

unfoldable pub remove_file : FilePath → Machine → Io Machine
remove_file p m = elim (m.disk p) [
  | none ↦ (err IoError.not_found, m)
  | some b ↦ (ok tt, put p none m)
]

abbrev pub tick : Machine → Machine
tick m = record m { clock = m.clock + 1 }

abbrev pub machine : Os Machine
machine = record {
  random = λ n m. (some (replicate n (m.clock % 256)), tick m);
  now = λ m. (m.clock, tick m);
  new_uuid = λ m. (m.clock ∷ [], tick m);
  create_dir = λ d m. (ok tt, m);
  set_dir_mode = λ d m. (ok tt, m);
  create_new = create_new;
  write_all = write_all;
  sync_all = λ p m. (ok tt, m);
  sync_dir = λ d m. m;
  rename = rename;
  rename_noreplace = rename_noreplace;
  remove_file = remove_file;
  is_file = λ p m. elim (m.disk p) [ none ↦ false | some b ↦ true ];
  file_len = λ p m. elim (m.disk p) [ none ↦ err IoError.not_found | some b ↦ ok (length b) ];
  read = λ p m. ok_or (m.disk p) IoError.not_found;
  read_dir = λ d m. none;
}

abbrev pub file : Machine → FilePath → Option Bytes
file m p = m.disk p

-- Named where a test runs on this machine.
unfoldable pub on_machine : Unit {0}
unfolding same_path create_new write_all rename rename_noreplace remove_file
on_machine = tt

same_path-eq : (p q : FilePath) → same_path p q ≡ true → p ≡ q
unfolding same_path
same_path-eq p q h =
    let d = (text_eq_iff p.dir q.dir).0 (ground arith) in
    let n = (text_eq_iff p.name q.name).0 (ground arith) in cc (d, n)

same_path_refl : (p : FilePath) → same_path p p ≡ true
unfolding same_path
same_path_refl p = rw (text_eq_refl p.dir, text_eq_refl p.name) refl

different : (q p : FilePath) → q ≢ p → same_path q p ≡ false
different q p ne = elim (Bool-cases (same_path q p)) [
  | inl e ↦ absurd (ne (same_path-eq q p e))
  | inr e ↦ e
]

put_self : (p : FilePath) (o : Option Bytes) (m : Machine) → (put p o m).disk p ≡ o
put_self p o m = rw (same_path_refl p) refl

put_other :
    (p q : FilePath) (o : Option Bytes) (m : Machine) → q ≢ p → (put p o m).disk q ≡ m.disk q
put_other p q o m ne = rw (different q p ne) refl

create_new-ok :
    (p : FilePath) (w : Machine)
    → (create_new p w).0 ≡ ok tt
    → (file w p ≡ none)
      × (file (create_new p w).1 p ≡ some [])
      × SameBut file p w (create_new p w).1
unfolding create_new
create_new-ok p w h = elim (Option-cases (w.disk p)) [
  | inl e ↦ (
    e,
    rw (e, create_new) (put_self p (some []) w),
    λ q ne. rw (e, create_new) (put_other p q (some []) w ne),
  )
  | inr (b, e) ↦ cc (rw (e, create_new) at h)
]

create_new-err :
    (p : FilePath) (w : Machine) (e : IoError)
    → (create_new p w).0 ≡ err e
    → Same file w (create_new p w).1
unfolding create_new
create_new-err p w e h q = elim (Option-cases (w.disk p)) [
  | inl o ↦ cc (rw (o, create_new) at h)
  | inr (b, o) ↦ rw (o, create_new) refl
]

rename-ok :
    (p q : FilePath) (w : Machine)
    → p ≢ q
    → (rename p q w).0 ≡ ok tt
    → (file (rename p q w).1 q ≡ file w p)
      × (file (rename p q w).1 p ≡ none)
      × ((r : FilePath) → r ≢ p → r ≢ q → file (rename p q w).1 r ≡ file w r)
unfolding rename
rename-ok p q w ne h = elim (Option-cases (w.disk p)) [
  | inl o ↦ cc (rw (o, rename) at h)
  | inr (b, o) ↦ (
    rw (o, rename)
        (put_other p q none (put q (some b) w) (λ e. ne (sym e)) ∙ put_self q (some b) w),
    rw (o, rename) (put_self p none (put q (some b) w)),
    λ r np nq.
        rw (o, rename) (put_other p r none (put q (some b) w) np ∙ put_other q r (some b) w nq),
  )
]

rename-err :
    (p q : FilePath) (w : Machine) (e : IoError)
    → (rename p q w).0 ≡ err e
    → Same file w (rename p q w).1
unfolding rename
rename-err p q w e h r = elim (Option-cases (w.disk p)) [
  | inl o ↦ rw (o, rename) refl
  | inr (b, o) ↦ cc (rw (o, rename) at h)
]

remove_file_same : (p : FilePath) (w : Machine) → SameBut file p w (remove_file p w).1
unfolding remove_file
remove_file_same p w q ne = elim (Option-cases (w.disk p)) [
  | inl o ↦ rw (o, remove_file) refl
  | inr (b, o) ↦ rw (o, remove_file) (put_other p q none w ne)
]

pub machine_laws : OsLaws machine file
unfolding write_all
machine_laws = record {
  random_same = λ n w q. refl;
  now_same = λ w q. refl;
  new_uuid_same = λ w q. refl;
  create_dir_same = λ d w q. refl;
  set_dir_mode_same = λ d w q. refl;
  create_new-ok = create_new-ok;
  create_new-err = create_new-err;
  write_all-ok = λ p b w h e. put_self p (some b) w;
  write_all_same = λ p b w q ne. put_other p q (some b) w ne;
  sync_all_same = λ p w q. refl;
  sync_dir_same = λ d w q. refl;
  rename-ok = rename-ok;
  rename-err = rename-err;
  remove_file_same = remove_file_same;
  read-ok = λ p w b h. ground arith;
  file_len-ok = λ p w n b h e. ground arith;
}
