-- ===== src/Commit/Content.antt =====
-- The content of the repositories at each path, and the rows that show that a write of
-- src/kohakuhub/api/commit/routers/operations.py is not needed.
use kohaku_hub.Prelude.{
  find?, Bool, sym, Option-cases, find?_passes, find?-Elem, find?_only, ℕ, ◌≡◌, refl, ap, ◌∙◌,
  String, true, false, ◌&&◌, not, Option, none, some, find?-and, arith, ◌==◌, str_eq, eq_iff,
  if◌then◌else◌, Bool-cases, inl, inr,
}
use kohaku_hub.Db.{Db, Repository, File}
use kohaku_hub.Commit.{LakeFs, Work}
use kohaku_hub.Commit.Files.{
  is_file, Content, content_of, view, get_file, get_any_file, set_deleted, FileKeys,
}
use kohaku_hub.Commit.View.{view-restore}
use kohaku_hub.Commit.Process.{is_unchanged, same_content}

-- By repository and path.
abbrev pub Contents : Type 0
Contents = ℕ → String → Option Content

abbrev pub contents : {lakefs : LakeFs} → Work lakefs → Contents
contents w r p = view r p w.storage.db.files

abbrev pub Same : Contents → Contents → Type 0
Same s t = (r : ℕ) (p : String) → s r p ≡ t r p

abbrev pub put : ℕ → String → Option Content → Contents → Contents
put repo path content s r p = if repo == r && str_eq path p then content else s r p

pub view-get_file :
    (repo : Repository) (path : String) (db : Db)
    → view repo.id path db.files ≡ content_of (get_file repo path db)
unfolding view get_file
view-get_file repo path db = refl

content-is_unchanged :
    (o : Option File) (sha256 : String) (size : ℕ)
    → is_unchanged o sha256 size ≡ true
    → content_of o ≡ some (record { sha256 = sha256; size = size })
content-is_unchanged none sha256 size h = ground arith
content-is_unchanged (some f) sha256 size h =
    let same : f.sha256 ≡ sha256 = (eq_iff f.sha256 sha256).0 (ground arith) in ground (arith, same)

-- An unchanged file has the content already.
pub put-is_unchanged :
    (repo : Repository) (path : String) (db : Db) (sha256 : String) (size : ℕ) (r : ℕ) (p : String)
    → is_unchanged (get_file repo path db) sha256 size ≡ true
    → view r p db.files ≡ (
        if repo.id == r && str_eq path p
        then some (record { sha256 = sha256; size = size })
        else view r p db.files)
put-is_unchanged repo path db sha256 size r p h =
    elim (Bool-cases (repo.id == r && str_eq path p)) [
      | inl here ↦
          let same : path ≡ p = (eq_iff path p).0 (ground arith) in
          let same_repo : repo.id ≡ r = ground arith in
          let there = view-get_file repo path db ∙ content-is_unchanged _ sha256 size h in
          rw here (rw (← same, ← same_repo) there)
      | inr elsewhere ↦ rw elsewhere refl
    ]

same_content-eq-some :
    (o : Option File) (oid : String) (size : ℕ) (existing : File)
    → same_content o oid size ≡ some existing
    → (o ≡ some existing) × (existing.sha256 ≡ oid) × (existing.size ≡ size)
same_content-eq-some none oid size existing h = absurd (cc h)
same_content-eq-some (some f) oid size existing h =
    let same : f ≡ existing = ground arith in
    let same_oid : f.sha256 ≡ oid = (eq_iff f.sha256 oid).0 (ground arith) in
    (ap some same, ground arith, ground arith)

-- A row with the content, once it is active.
pub put-same_content :
    (repo : Repository) (path : String) (db : Db) (oid : String) (size : ℕ) (existing : File)
    (r : ℕ) (p : String)
    → FileKeys db.files
    → same_content (get_any_file repo path db) oid size ≡ some existing
    → view r p
        (if existing.is_deleted then set_deleted false (λ f. f.id == existing.id) db else db).files
      ≡ put repo.id path
          (some (record { sha256 = oid; size = size }))
          (λ r p. view r p db.files)
          r
          p
unfolding get_any_file
put-same_content repo path db oid size existing r p keys h =
    let (found, same_oid, same_size) = same_content-eq-some _ oid size existing h in
    elim (Bool-cases existing.is_deleted) [
      | inl deleted ↦
          let restored = view-restore repo.id path existing db r p keys found in
          rw deleted (ground (arith, restored, same_oid, same_size))
      | inr active ↦ rw active (elim (Bool-cases (repo.id == r && str_eq path p)) [
        | inl here ↦
            let same : path ≡ p = (eq_iff path p).0 (ground arith) in
            let same_repo : repo.id ≡ r = ground arith in
            let there =
              find?-and (is_file repo.id path) (λ f. not f.is_deleted) db.files existing found
                (ground arith) in
            rw here (
              rw (← same, ← same_repo)
                (unfold view in rw there (ground (arith, same_oid, same_size))))
        | inr elsewhere ↦ rw elsewhere refl
      ])
    ]

-- A path with content has an active row with it.
pub view-row :
    (repo : Repository) (path : String) (db : Db) (sha256 : String) (size : ℕ)
    → view repo.id path db.files ≡ some (record { sha256 = sha256; size = size })
    → (f : File) × (get_file repo path db ≡ some f)
      × (f.is_deleted ≡ false)
      × (is_file repo.id path f ≡ true)
      × (f.sha256 ≡ sha256)
      × (f.size ≡ size)
unfolding get_file view
view-row repo path db sha256 size h =
    let p : File → Bool = λ f. is_file repo.id path f && not f.is_deleted in
    elim (Option-cases (find? p db.files)) [
      | inl missing ↦ absurd (ground arith)
      | inr (f, found) ↦
          let passes = find?_passes p db.files f found in
          let same : content_of (some f) ≡ some (record { sha256 = sha256; size = size }) =
            ap content_of (sym found) ∙ h in
          (f, found, ground arith, ground arith, ground arith, ground arith)
    ]

-- Content that is there already makes a write of it needless.
pub is_unchanged-view :
    (repo : Repository) (path : String) (db : Db) (sha256 : String) (size : ℕ)
    → view repo.id path db.files ≡ some (record { sha256 = sha256; size = size })
    → is_unchanged (get_file repo path db) sha256 size ≡ true
is_unchanged-view repo path db sha256 size h =
    let (f, found, active, at, sha, same) = view-row repo path db sha256 size h in
    rw found (ground (arith, active, same, (eq_iff f.sha256 sha256).1 sha))

pub view-is_unchanged :
    (repo : Repository) (path : String) (db : Db) (sha256 : String) (size : ℕ)
    → is_unchanged (get_file repo path db) sha256 size ≡ true
    → view repo.id path db.files ≡ some (record { sha256 = sha256; size = size })
view-is_unchanged repo path db sha256 size h =
    view-get_file repo path db ∙ content-is_unchanged _ sha256 size h

pub same_content-view :
    (repo : Repository) (path : String) (db : Db) (sha256 : String) (size : ℕ)
    → FileKeys db.files
    → view repo.id path db.files ≡ some (record { sha256 = sha256; size = size })
    → (f : File) × (same_content (get_any_file repo path db) sha256 size ≡ some f)
      × (f.is_deleted ≡ false)
unfolding get_any_file view get_file
same_content-view repo path db sha256 size keys h =
    let (f, found, active, at, sha, same) = view-row repo path db sha256 size h in
    let stored = find?-Elem _ db.files f found in
    let only =
      find?_only (is_file repo.id path) db.files f (keys.file_path repo.id path) stored at in
    (f, rw only (ground (arith, same, (eq_iff f.sha256 sha256).1 sha)), active)
