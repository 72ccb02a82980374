-- ===== src/Commit.antt =====
-- src/kohakuhub/api/commit/routers/operations.py: a commit, which is a list of file operations. The
-- state is the tables with the LFS objects, and LakeFS, which is a service: `LakeFs` has the calls that
-- are made, `none` where one raises. What a call that raised has done before stays.
pub mod Files
pub mod View
pub mod Keys
pub mod Process
pub mod Run
pub mod Content
pub mod Effects
pub mod Writes
pub mod Inversion
pub mod Staging
pub mod Stages
pub mod Unchanged
pub mod Runs
pub mod Tail
pub mod Requests
pub mod Refines
mod Tests
use kohaku_hub.Prelude.{ℕ, String, Bool, true, false, Option, none, some, List}
use kohaku_hub.Http.{Error, Result, ok, err}
use kohaku_hub.Db.{Db, File}
use kohaku_hub.Lfs.Gc.{Storage}

-- What LakeFS knows of an object; `path` is its name in a listing.
pub record LakeObject : Type 0 where
  pub path : String
  pub path_type : String
  pub physical_address : String
  pub checksum : String
  pub size_bytes : ℕ

pub record LakePage : Type 0 where
  pub results : List LakeObject
  pub has_more : Bool
  pub next_offset : String

-- The calls of the REST client; a text names the repository, then the branch or reference.
pub record LakeFs : Type 1 where
  pub Lake : Type 0
  pub upload_object : String → String → (path : String) → (content : List ℕ) → Lake → Option Lake
  pub link_physical_address :
      String → String → (path physical_address checksum : String) → ℕ → Lake → Option Lake
  pub delete_object : String → String → (path : String) → Lake → Option Lake
  pub stat_object : String → String → (path : String) → Lake → Option LakeObject
  pub list_objects : String → String → (prefix after : String) → Lake → Option LakePage
  pub commit : String → String → (message description : String) → Lake → Option (String × Lake)
  pub get_branch : String → String → Lake → Option String

-- The rest of the program's surroundings: the library functions that the code calls, and S3 by key.
-- `base_repr` and `halves` are those of Names/Lake, `b64decode` gives the bytes, `blob_header` is `f"blob {size}\0".encode()`, `fresh_id` the
-- database's next id in the file table.
pub record Services : Type 0 where
  pub lower : String → String
  pub parse_rules : String → Option (List String)
  pub base_repr : ℕ → String
  pub halves : String → ℕ × ℕ
  pub b64decode : String → Option (List ℕ)
  pub blob_header : ℕ → List ℕ
  pub sha1 : List ℕ → String
  pub bucket : String
  pub object_exists : String → Option Bool
  pub object_size : String → Option ℕ
  -- `startswith` of a column, which is the query builder's
  pub row_starts_with : (path folder_path : String) → Bool
  pub fresh_id : List File → ℕ

pub record Work (lakefs : LakeFs) : Type 0 where
  pub storage : Storage
  pub lake : lakefs.Lake

-- A part of the handler: it may raise, and leaves a state either way.
abbrev pub Handler {ℓ} : LakeFs → Type ℓ → Type ℓ
Handler lakefs A = Work lakefs → Result A × Work lakefs

module _ {lakefs : LakeFs} where
  abbrev pub return : {A : Type 0} → A → Handler lakefs A
  return a w = (ok a, w)

  abbrev pub raise : {A : Type 0} → Error → Handler lakefs A
  raise e w = (err e, w)

  abbrev pub continue :
      {A B : Type 0} → Result A × Work lakefs → (A → Handler lakefs B) → Result B × Work lakefs
  continue (ok a, w) rest = rest a w
  continue (err e, w) rest = (err e, w)

  infixl 5 ◌>>=◌ ◌>>◌
  abbrev pub ◌>>=◌ : {A B : Type 0} → Handler lakefs A → (A → Handler lakefs B) → Handler lakefs B
  ◌>>=◌ m f w = continue (m w) f

  abbrev pub ◌>>◌ : {B : Type 0} → Handler lakefs (Unit {0}) → Handler lakefs B → Handler lakefs B
  m >> k = m >>= λ _. k

  -- The answer of a library function, or what is raised without one.
  abbrev pub given : {A : Type 0} → Option A → Error → Handler lakefs A
  given none e = raise e
  given (some a) e = return a

  -- `if not test: raise e`
  abbrev pub check : Bool → Error → Handler lakefs (Unit {0})
  check true e = return tt
  check false e = raise e

  abbrev pub get_db : Handler lakefs Db
  get_db w = (ok w.storage.db, w)

  abbrev pub with_db : Work lakefs → Db → Work lakefs
  with_db w db = record w { storage = record w.storage { db = db } }

  abbrev pub change_db : (Db → Db) → Handler lakefs (Unit {0})
  change_db change w = (ok tt, with_db w (change w.storage.db))

  -- A call of LakeFS that changes it, or what is raised where it raises.
  abbrev pub call_lake : (lakefs.Lake → Option lakefs.Lake) → Error → Handler lakefs (Unit {0})
  call_lake call e w = elim (call w.lake) [
    | none ↦ (err e, w)
    | some lake ↦ (ok tt, record w { lake = lake })
  ]

  -- An answer of LakeFS.
  abbrev pub ask_lake : {A : Type 0} → (lakefs.Lake → Option A) → Error → Handler lakefs A
  ask_lake ask e w = elim (ask w.lake) [ none ↦ (err e, w) | some a ↦ (ok a, w) ]
