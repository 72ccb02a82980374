-- ===== src/Commit/Files.antt =====
-- The rows of the file table (src/kohakuhub/db.py, src/kohakuhub/db_operations.py) as
-- src/kohakuhub/api/commit/routers/operations.py writes them, and the content that a repository has
-- at each path by its active rows.
use kohaku_hub.Prelude.{
  ℕ, String, Bool, false, ◌&&◌, not, Option, none, some, List, [], ◌∷◌, ◌++◌, map, find?, any, ◌==◌,
  str_eq, if◌then◌else◌, AtMostOne,
}
use kohaku_hub.Db.{Db, Repository, File}

-- the row of the unique (repository, path) index
abbrev pub is_file : ℕ → String → File → Bool
is_file repo path f = f.repository == repo && str_eq f.path_in_repo path

unfoldable pub get_file : Repository → String → Db → Option File
get_file repo path db = find? (λ f. is_file repo.id path f && not f.is_deleted) db.files

-- The row whether it is deleted or not.
unfoldable pub get_any_file : Repository → String → Db → Option File
get_any_file repo path db = find? (is_file repo.id path) db.files

abbrev pub with_files : List File → Db → Db
with_files files db = record db { files = files }

abbrev pub written : (size : ℕ) (sha256 : String) (lfs : Bool) → File → File
written size sha256 lfs f = record f { size = size; sha256 = sha256; lfs = lfs; is_deleted = false }

-- `File.insert(...).on_conflict(...)`; the id of a new row is the database's choice.
unfoldable pub upsert_file :
    ℕ → Repository → String → (size : ℕ) (sha256 : String) (lfs : Bool) → Db → Db
upsert_file new_id repo path size sha256 lfs db =
    let row : File = record {
      id = new_id;
      repository = repo.id;
      path_in_repo = path;
      size = size;
      sha256 = sha256;
      lfs = lfs;
      is_deleted = false;
    } in
    with_files
      (if any (is_file repo.id path) db.files
        then map (λ f. if is_file repo.id path f then written size sha256 lfs f else f) db.files
        else db.files ++ row ∷ [])
      db

-- `File.update(is_deleted=...).where(...)`
unfoldable pub set_deleted : Bool → (File → Bool) → Db → Db
set_deleted is_deleted where_row db =
    with_files (map (λ f. if where_row f then record f { is_deleted = is_deleted } else f) db.files)
      db

pub record Content : Type 0 where
  pub sha256 : String
  pub size : ℕ

abbrev pub content_of : Option File → Option Content
content_of none = none
content_of (some f) = some (record { sha256 = f.sha256; size = f.size })

-- The content of a repository at a path.
unfoldable pub view : ℕ → String → List File → Option Content
view repo path files = content_of (find? (λ f. is_file repo path f && not f.is_deleted) files)

-- The unique indexes of the table.
pub record FileKeys (files : List File) : Type 0 where
  pub file_id : (id : ℕ) → AtMostOne (λ f. f.id == id) files
  pub file_path : (repo : ℕ) (path : String) → AtMostOne (is_file repo path) files
