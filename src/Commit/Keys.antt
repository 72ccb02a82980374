-- ===== src/Commit/Keys.antt =====
-- The unique indexes of the file table hold after each write by
-- src/kohakuhub/api/commit/routers/operations.py.
use kohaku_hub.Prelude.{
  ℕ, ◌≡◌, refl, String, Bool, false, List, map, any, arith, eq_iff, ◌==◌, if◌then◌else◌, Bool-cases,
  inl, inr, AtMostOne-append, AtMostOne-map,
}
use mathlib.Core.Path.{subst}
use kohaku_hub.Db.{Db, Repository, File}
use kohaku_hub.Commit.Files.{is_file, written, upsert_file, set_deleted, FileKeys}

-- A change of the rows that keeps their ids and keys.
map-FileKeys :
    (change : File → File) (files : List File)
    → ((f : File) → (change f).id ≡ f.id)
    → ((repo : ℕ) (path : String) (f : File) → is_file repo path (change f) ≡ is_file repo path f)
    → FileKeys files
    → FileKeys (map change files)
map-FileKeys change files same_id same_path keys = record {
  file_id = λ id.
      AtMostOne-map (λ f. f.id == id) change files (λ f. rw (same_id f) refl) (keys.file_id id);
  file_path = λ repo path.
      AtMostOne-map (is_file repo path) change files (same_path repo path)
        (keys.file_path repo path);
}

pub set_deleted-FileKeys :
    (is_deleted : Bool) (where_row : File → Bool) (db : Db)
    → FileKeys db.files
    → FileKeys (set_deleted is_deleted where_row db).files
unfolding set_deleted
set_deleted-FileKeys is_deleted where_row db keys =
    map-FileKeys (λ f. if where_row f then record f { is_deleted = is_deleted } else f) db.files
      (λ f. ground arith) (λ repo path f. ground arith) keys

pub upsert_file-FileKeys :
    (new_id : ℕ) (repo : Repository) (path : String) (size : ℕ) (sha256 : String) (lfs : Bool)
    (db : Db)
    → any (λ f. f.id == new_id) db.files ≡ false
    → FileKeys db.files
    → FileKeys (upsert_file new_id repo path size sha256 lfs db).files
unfolding upsert_file
upsert_file-FileKeys new_id repo path size sha256 lfs db fresh keys =
    elim (Bool-cases (any (is_file repo.id path) db.files)) [
      | inl there ↦ rw there (
          map-FileKeys (λ f. if is_file repo.id path f then written size sha256 lfs f else f)
            db.files (λ f. ground arith) (λ r p f. ground arith) keys)
      | inr absent ↦ rw absent (record {
        file_id = λ id.
            AtMostOne-append (λ f. f.id == id) db.files _ (keys.file_id id)
              (λ h.
                let same : new_id ≡ id = ground arith in
                subst (λ n. any (λ (f : File). f.id == n) db.files ≡ false) same fresh);
        file_path = λ r p. AtMostOne-append (is_file r p) db.files _ (keys.file_path r p) (λ h.
            let same : repo.id ≡ r = ground arith in
            let same_path : path ≡ p = (eq_iff path p).0 (ground arith) in
            rw (← same, ← same_path) absent);
      })
    ]
