-- ===== src/Commit/Effects.antt =====
-- What each of the functions `process_…` of src/kohakuhub/api/commit/routers/operations.py does to
-- the content of the repository at each path, by the file table.
use kohaku_hub.Prelude.{
  ℕ, ◌≡◌, refl, ◌⊎◌, String, Bool, true, false, ◌&&◌, Option, none, some, List, [], ◌∷◌, length,
  arith, ◌==◌, str_eq, eq_iff, Option-cases, inl, inr,
}
use kohaku_hub.Config.{Config}
use kohaku_hub.Http.{ok}
use kohaku_hub.Db.{Repository, File}
use kohaku_hub.Commit.{LakeFs, LakeObject, Services, Work}
use kohaku_hub.Commit.Files.{Content, get_file, get_any_file, FileKeys}
use kohaku_hub.Commit.View.{view-upsert_file, view-set_deleted}
use kohaku_hub.Commit.Content.{
  contents, Same, put, view-get_file, put-is_unchanged, put-same_content,
}
use kohaku_hub.Commit.Process.{
  LfsInfo, Listing, listed, raised, unfinished, same_content, or_given, lfs_key,
  process_regular_file, calculate_git_blob_sha1, keep_lfs_file, link_lfs_file, try_delete,
  process_deleted_file, delete_objects, process_copy_file, uses_lfs,
}

pub or_given_cases :
    (o : Option ℕ) (size : ℕ) → (or_given o size ≡ size) ⊎ (o ≡ some (or_given o size))
or_given_cases none size = inl refl
or_given_cases (some actual) size = inr refl

pub Listing-cases :
    (l : Listing)
    → ((objects : List LakeObject) × (l ≡ listed objects)) ⊎ ((l ≡ raised) ⊎ (l ≡ unfinished))
Listing-cases (listed objects) = inl (objects, refl)
Listing-cases raised = inr (inl refl)
Listing-cases unfinished = inr (inr refl)

abbrev pub or_else : Option Content → Content → Option Content
or_else none content = some content
or_else (some content) other = some content

module _ {lakefs : LakeFs} (cfg : Config) (services : Services) (repo : Repository)
    (lakefs_repo revision : String) where
  pub delete_objects-storage :
      (objects : List LakeObject) (w : Work lakefs)
      → (delete_objects cfg services repo lakefs_repo revision objects w).1.storage ≡ w.storage
  unfolding delete_objects
  delete_objects-storage [] w = refl
  delete_objects-storage (obj ∷ objects) w =
      let next = (try_delete cfg services repo lakefs_repo revision obj.path w).1 in
      let rest = delete_objects-storage objects next in ground (arith, rest)

module _ {lakefs : LakeFs} (cfg : Config) (services : Services) (repo : Repository)
    (lakefs_repo revision : String) (w w' : Work lakefs) where
  pub process_regular_file_effect :
      (path content_b64 encoding : String) (changed : Bool)
      → process_regular_file cfg services repo lakefs_repo revision path content_b64 encoding w
        ≡ (ok changed, w')
      → (content : List ℕ) × (services.b64decode content_b64 ≡ some content)
        × Same (contents w') (
            put repo.id path
              (some (record {
                sha256 = calculate_git_blob_sha1 services content;
                size = length content;
              }))
              (contents w))
  unfolding process_regular_file
  process_regular_file_effect path content_b64 encoding changed h =
      elim (Option-cases (services.b64decode content_b64)) [
        | inl missing ↦ absurd (ground arith)
        | inr (content, decoded) ↦ (
          content,
          decoded,
          λ r p.
              let sha1 = calculate_git_blob_sha1 services content in
              let size = length content in
              let write =
                view-upsert_file (services.fresh_id w.storage.db.files) repo path size sha1 false
                  w.storage.db r p in
              let kept = put-is_unchanged repo path w.storage.db sha1 size r p in
              ground (arith, write, kept),
        )
      ]

  pub keep_lfs_file_effect :
      (path oid : String) (size : ℕ) (algo : String) (existing : File) (out : Bool × LfsInfo)
      → FileKeys w.storage.db.files
      → same_content (get_any_file repo path w.storage.db) oid size ≡ some existing
      → keep_lfs_file cfg services repo lakefs_repo revision path oid size algo existing w
        ≡ (ok out, w')
      → Same
          (contents w')
          (put repo.id path (some (record { sha256 = oid; size = size })) (contents w))
  unfolding keep_lfs_file
  keep_lfs_file_effect path oid size algo existing out keys found h r p =
      let kept = put-same_content repo path w.storage.db oid size existing r p keys found in
      ground (arith, kept)

  pub link_lfs_file_effect :
      (path oid : String) (size : ℕ) (algo : String) (old : Option String) (out : Bool × LfsInfo)
      → link_lfs_file cfg services repo lakefs_repo revision path oid size algo old w ≡ (ok out, w')
      → Same (contents w') (
          put repo.id path
            (some
              (record { sha256 = oid; size = or_given (services.object_size (lfs_key oid)) size }))
            (contents w))
  unfolding link_lfs_file
  link_lfs_file_effect path oid size algo old out h r p =
      let actual = or_given (services.object_size (lfs_key oid)) size in
      let write =
        view-upsert_file (services.fresh_id w.storage.db.files) repo path actual oid true
          w.storage.db r p in
      ground (arith, write)

  pub process_deleted_file_effect :
      (path : String) (changed : Bool)
      → process_deleted_file cfg services repo lakefs_repo revision path w ≡ (ok changed, w')
      → Same (contents w') (put repo.id path none (contents w))
  unfolding process_deleted_file
  process_deleted_file_effect path changed h r p =
      let gone = view-set_deleted (λ r p. r == repo.id && str_eq p path) w.storage.db r p in
      ground (arith, gone, eq_iff path p, eq_iff p path)

  -- The copy has the content of the source's row, or without one what LakeFS tells of the source.
  pub process_copy_file_effect :
      (dest_path src_path src_revision : String) (changed : Bool)
      → process_copy_file cfg services repo lakefs_repo revision dest_path src_path src_revision w
        ≡ (ok changed, w')
      → (src_obj : LakeObject) × (lakefs.stat_object lakefs_repo src_revision src_path w.lake
          ≡ some src_obj)
        × Same (contents w') (
            put repo.id dest_path
              (or_else
                (contents w repo.id src_path)
                (record { sha256 = src_obj.checksum; size = src_obj.size_bytes }))
              (contents w))
  unfolding process_copy_file
  process_copy_file_effect dest_path src_path src_revision changed h =
      elim (Option-cases (lakefs.stat_object lakefs_repo src_revision src_path w.lake)) [
        | inl missing ↦ absurd (ground arith)
        | inr (src_obj, found) ↦ (
          src_obj,
          found,
          λ r p.
              let src_content = view-get_file repo src_path w.storage.db in
              elim (Option-cases (get_file repo src_path w.storage.db)) [
                | inl no_row ↦
                    let size = src_obj.size_bytes in
                    let lfs = uses_lfs cfg services repo dest_path size in
                    let write =
                      view-upsert_file (services.fresh_id w.storage.db.files) repo dest_path size
                        src_obj.checksum lfs w.storage.db r p in
                    ground (arith, write)
                | inr (src_file, row) ↦
                    let write =
                      view-upsert_file (services.fresh_id w.storage.db.files) repo dest_path
                        src_file.size src_file.sha256 src_file.lfs w.storage.db r p in
                    ground (arith, write)
              ],
        )
      ]
