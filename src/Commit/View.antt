-- ===== src/Commit/View.antt =====
-- The content of a repository at each path, after each write to the file table by
-- src/kohakuhub/api/commit/routers/operations.py.
use kohaku_hub.Prelude.{
  ℕ, ◌≡◌, refl, ap, ◌∙◌, String, Bool, true, false, ◌&&◌, not, none, some, List, [], ◌∷◌, ◌++◌, map,
  find?, any, arith, eq_iff, ◌==◌, str_eq, if◌then◌else◌, Bool-cases, inl, inr, Elem, find?-Elem,
  find?_passes, any-eq-true,
}
use kohaku_hub.Db.{Db, Repository, File}
use kohaku_hub.Commit.Files.{is_file, written, upsert_file, set_deleted, content_of, view, FileKeys}

is_file-key :
    (repo r : ℕ) (path p : String) (f : File)
    → is_file repo path f ≡ true
    → is_file r p f ≡ (repo == r && str_eq path p)
is_file-key repo r path p f h =
    let same : f.path_in_repo ≡ path = (eq_iff f.path_in_repo path).0 (ground arith) in
    rw same (ground arith)

is_file-other :
    (repo r : ℕ) (path p : String) (f : File)
    → is_file repo path f ≡ false
    → (repo == r && str_eq path p) ≡ true
    → is_file r p f ≡ false
is_file-other repo r path p f miss h =
    let same : path ≡ p = (eq_iff path p).0 (ground arith) in
    let same_repo : repo ≡ r = ground arith in rw (← same, ← same_repo) miss

view-nil : (r : ℕ) (p : String) → view r p [] ≡ none
unfolding view find?
view-nil r p = refl

view-cons :
    (r : ℕ) (p : String) (f : File) (files : List File)
    → view r p (f ∷ files)
      ≡ (if is_file r p f && not f.is_deleted then content_of (some f) else view r p files)
unfolding view find?
view-cons r p f files = ground arith

module _ (repo : ℕ) (path : String) where
  module _ (size : ℕ) (sha256 : String) (lfs : Bool) where
    abbrev write_row : File → File
    write_row f = if is_file repo path f then written size sha256 lfs f else f

    view-write_row :
        (r : ℕ) (p : String) (f : File) (files files' : List File)
        → view r p files' ≡ (
            if repo == r && str_eq path p && any (is_file repo path) files
            then some (record { sha256 = sha256; size = size })
            else view r p files)
        → view r p (write_row f ∷ files') ≡ (
            if repo == r && str_eq path p && any (is_file repo path) (f ∷ files)
            then some (record { sha256 = sha256; size = size })
            else view r p (f ∷ files))
    unfolding any
    view-write_row r p f files files' rest =
        let this = view-cons r p f files in
        let that = view-cons r p (write_row f) files' in
        elim (Bool-cases (is_file repo path f)) [
          | inl hit ↦ let key = is_file-key repo r path p f hit in ground (arith, this, that, key)
          | inr miss ↦ elim (Bool-cases (repo == r && str_eq path p)) [
            | inl here ↦
                let other = is_file-other repo r path p f miss here in
                ground (arith, this, that, other)
            | inr elsewhere ↦ ground (arith, this, that)
          ]
        ]

    view-written :
        (r : ℕ) (p : String) (files : List File)
        → view r p (map write_row files) ≡ (
            if repo == r && str_eq path p && any (is_file repo path) files
            then some (record { sha256 = sha256; size = size })
            else view r p files)
    unfolding view find? any
    view-written r p [] = ground arith
    view-written r p (f ∷ files) =
        view-write_row r p f files (map write_row files) (view-written r p files)

  view-append :
      (r : ℕ) (p : String) (files : List File) (row : File)
      → any (is_file repo path) files ≡ false
      → is_file repo path row ≡ true
      → row.is_deleted ≡ false
      → view r p (files ++ row ∷ [])
        ≡ (if repo == r && str_eq path p then content_of (some row) else view r p files)
  unfolding any
  view-append r p [] row free hit active =
      let this = view-cons r p row [] in
      let key = is_file-key repo r path p row hit in ground (arith, this, key)
  view-append r p (f ∷ files) row free hit active =
      let rest = view-append r p files row (ground arith) hit active in
      let this = view-cons r p f files in
      let that = view-cons r p f (files ++ row ∷ []) in
      let miss : is_file repo path f ≡ false = ground arith in
      elim (Bool-cases (repo == r && str_eq path p)) [
        | inl here ↦
            let other = is_file-other repo r path p f miss here in
            ground (arith, this, that, other, rest)
        | inr elsewhere ↦ ground (arith, this, that, rest)
      ]

-- After a write the path has the written content, and every other path what it had.
pub view-upsert_file :
    (new_id : ℕ) (repo : Repository) (path : String) (size : ℕ) (sha256 : String) (lfs : Bool)
    (db : Db) (r : ℕ) (p : String)
    → view r p (upsert_file new_id repo path size sha256 lfs db).files ≡ (
        if repo.id == r && str_eq path p
        then some (record { sha256 = sha256; size = size })
        else view r p db.files)
unfolding upsert_file
view-upsert_file new_id repo path size sha256 lfs db r p =
    let itself = (eq_iff path path).1 refl in
    elim (Bool-cases (any (is_file repo.id path) db.files)) [
      | inl there ↦
          let write = view-written repo.id path size sha256 lfs r p db.files in
          rw there (ground (arith, write))
      | inr absent ↦
          rw absent (view-append repo.id path r p db.files _ absent (ground (arith, itself)) refl)
    ]

abbrev delete_row : (ℕ → String → Bool) → File → File
delete_row q f = if q f.repository f.path_in_repo then record f { is_deleted = true } else f

same_test :
    (q : ℕ → String → Bool) (r : ℕ) (p : String) (f : File)
    → is_file r p f ≡ true
    → q f.repository f.path_in_repo ≡ q r p
same_test q r p f hit =
    let same : f.path_in_repo ≡ p = (eq_iff f.path_in_repo p).0 (ground arith) in
    let same_repo : f.repository ≡ r = ground arith in
    ap (λ n. q n f.path_in_repo) same_repo ∙ ap (λ n. q r n) same

view-delete_row :
    (q : ℕ → String → Bool) (r : ℕ) (p : String) (files : List File)
    → view r p (map (delete_row q) files) ≡ (if q r p then none else view r p files)
view-delete_row q r p [] = elim (Bool-cases (q r p)) [
  | inl hit ↦ rw hit (view-nil r p)
  | inr miss ↦ rw miss refl
]
view-delete_row q r p (f ∷ files) =
    let rest = view-delete_row q r p files in
    let this = view-cons r p f files in
    let that = view-cons r p (delete_row q f) (map (delete_row q) files) in
    elim (Bool-cases (is_file r p f)) [
      | inl hit ↦ let test = same_test q r p f hit in ground (arith, this, that, rest, test)
      | inr miss ↦ ground (arith, this, that, rest)
    ]

-- A deletion by a test of the key empties the paths that pass it.
pub view-set_deleted :
    (q : ℕ → String → Bool) (db : Db) (r : ℕ) (p : String)
    → view r p (set_deleted true (λ f. q f.repository f.path_in_repo) db).files
      ≡ (if q r p then none else view r p db.files)
unfolding set_deleted
view-set_deleted q db r p = view-delete_row q r p db.files

map_on :
    (g h : File → File) (files : List File)
    → ((f : File) → Elem f files → g f ≡ h f)
    → map g files ≡ map h files
map_on g h [] same = refl
map_on g h (f ∷ files) same =
    let rest = map_on g h files (λ x e. same x (inr e)) in rw (same f (inl refl), rest) refl

-- The restoring of one row by its id gives its path the content that the row has.
pub view-restore :
    (repo : ℕ) (path : String) (existing : File) (db : Db) (r : ℕ) (p : String)
    → FileKeys db.files
    → find? (is_file repo path) db.files ≡ some existing
    → view r p (set_deleted false (λ f. f.id == existing.id) db).files
      ≡ (if repo == r && str_eq path p then content_of (some existing) else view r p db.files)
unfolding set_deleted
view-restore repo path existing db r p keys found =
    let e = find?-Elem (is_file repo path) db.files existing found in
    let hit = find?_passes (is_file repo path) db.files existing found in
    let there = any-eq-true (is_file repo path) db.files existing e hit in
    let write = view-written repo path existing.size existing.sha256 existing.lfs r p db.files in
    rw (map_on _ (write_row repo path existing.size existing.sha256 existing.lfs) db.files same_row)
      (ground (arith, write, there))
  where
    same_row :
        (f : File)
        → Elem f db.files
        → (if f.id == existing.id then record f { is_deleted = false } else f)
          ≡ write_row repo path existing.size existing.sha256 existing.lfs f
    same_row f e =
        let there = find?-Elem (is_file repo path) db.files existing found in
        let hit = find?_passes (is_file repo path) db.files existing found in
        let itself : (existing.id == existing.id) ≡ true = ground arith in
        elim (Bool-cases (is_file repo path f)) [
          | inl this ↦
              let same : f ≡ existing = keys.file_path repo path f existing e there this hit in
              rw same (ground arith)
          | inr miss ↦ elim (Bool-cases (f.id == existing.id)) [
            | inl same_id ↦
                let same : f ≡ existing =
                  keys.file_id existing.id f existing e there same_id itself in
                absurd (cc (ap (is_file repo path) same))
            | inr other ↦ rw (other, miss) refl
          ]
        ]
