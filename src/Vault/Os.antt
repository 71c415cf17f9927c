-- ===== src/Vault/Os.antt =====
-- The operating system as the vault uses it: randomness, the clock, fresh uuids and the file
-- system. Every call takes the world and returns the world after it.
use secret_manager.Base.{
  ℕ, ◌≡◌, ◌≢◌, Bool, Option, none, some, List, [], length, Bytes, Text, Result, ok, err,
}
use secret_manager.Vault.Types.{IoError}

-- A path below a directory: `path.parent()` and `path.file_name()`.
pub record FilePath : Type 0 where
  pub dir : Text
  pub name : Text

-- An entry of `read_dir`: its name if it is UTF-8, `metadata().is_file()` if that succeeds, and the
-- age of its modification time, `none` where that is unreadable or lies in the future.
pub record DirEntry : Type 0 where
  pub name : Option Text
  pub is_file : Option Bool
  pub age : Option ℕ

abbrev pub Io : Type 0 → Type 0
Io World = Result IoError (Unit {0}) × World

pub record Os (World : Type 0) : Type 0 where
  -- `OsRng.try_fill_bytes` on an array of that length.
  pub random : ℕ → World → Option Bytes × World
  pub now : World → ℕ × World
  pub new_uuid : World → Text × World
  -- `DirBuilder` with mode 0700, and the chmod to 0700.
  pub create_dir : Text → World → Io World
  pub set_dir_mode : Text → World → Io World
  -- `O_CREAT | O_EXCL`, `write_all`, `sync_all` of the file and of its directory.
  pub create_new : FilePath → World → Io World
  pub write_all : FilePath → Bytes → World → Io World
  pub sync_all : FilePath → World → Io World
  pub sync_dir : Text → World → World
  pub rename : FilePath → FilePath → World → Io World
  pub rename_noreplace : FilePath → FilePath → World → Io World
  pub remove_file : FilePath → World → Io World
  pub is_file : FilePath → World → Bool
  pub file_len : FilePath → World → Result IoError ℕ
  pub read : FilePath → World → Result IoError Bytes
  pub read_dir : Text → World → Option (List DirEntry)

-- What the calls do to the contents of files, `file w p` being `none` where there is no file. A
-- call that fails changes no contents, but for a `write_all`, which may have written a part.
module _ {World : Type 0} where
  -- Every file is as it was, except perhaps `p`.
  abbrev pub SameBut : (World → FilePath → Option Bytes) → FilePath → World → World → Type 0
  SameBut file p w w' = (q : FilePath) → q ≢ p → file w' q ≡ file w q

  abbrev pub Same : (World → FilePath → Option Bytes) → World → World → Type 0
  Same file w w' = (q : FilePath) → file w' q ≡ file w q

  pub record OsLaws (os : Os World) (file : World → FilePath → Option Bytes) : Type 0 where
    pub random_same : (n : ℕ) (w : World) → Same file w (os.random n w).1
    pub now_same : (w : World) → Same file w (os.now w).1
    pub new_uuid_same : (w : World) → Same file w (os.new_uuid w).1
    pub create_dir_same : (d : Text) (w : World) → Same file w (os.create_dir d w).1
    pub set_dir_mode_same : (d : Text) (w : World) → Same file w (os.set_dir_mode d w).1
    pub create_new-ok :
        (p : FilePath) (w : World)
        → (os.create_new p w).0 ≡ ok tt
        → (file w p ≡ none)
          × (file (os.create_new p w).1 p ≡ some [])
          × SameBut file p w (os.create_new p w).1
    pub create_new-err :
        (p : FilePath) (w : World) (e : IoError)
        → (os.create_new p w).0 ≡ err e
        → Same file w (os.create_new p w).1
    pub write_all-ok :
        (p : FilePath) (b : Bytes) (w : World)
        → (os.write_all p b w).0 ≡ ok tt
        → file w p ≡ some []
        → file (os.write_all p b w).1 p ≡ some b
    pub write_all_same :
        (p : FilePath) (b : Bytes) (w : World) → SameBut file p w (os.write_all p b w).1
    pub sync_all_same : (p : FilePath) (w : World) → Same file w (os.sync_all p w).1
    pub sync_dir_same : (d : Text) (w : World) → Same file w (os.sync_dir d w)
    pub rename-ok :
        (p q : FilePath) (w : World)
        → p ≢ q
        → (os.rename p q w).0 ≡ ok tt
        → (file (os.rename p q w).1 q ≡ file w p)
          × (file (os.rename p q w).1 p ≡ none)
          × ((r : FilePath) → r ≢ p → r ≢ q → file (os.rename p q w).1 r ≡ file w r)
    pub rename-err :
        (p q : FilePath) (w : World) (e : IoError)
        → (os.rename p q w).0 ≡ err e
        → Same file w (os.rename p q w).1
    pub remove_file_same : (p : FilePath) (w : World) → SameBut file p w (os.remove_file p w).1
    pub read-ok : (p : FilePath) (w : World) (b : Bytes) → os.read p w ≡ ok b → file w p ≡ some b
    pub file_len-ok :
        (p : FilePath) (w : World) (n : ℕ) (b : Bytes)
        → os.file_len p w ≡ ok n
        → file w p ≡ some b
        → n ≡ length b
