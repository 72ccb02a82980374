-- ===== src/Lfs/Gc/Sharing.antt =====
-- LFS objects are shared by the repositories, and a cleanup for one repository looks at that one only
-- (src/kohakuhub/api/repo/utils/gc.py).
use kohaku_hub.Prelude.{
  ◌≡◌, ap, String, Bool, true, some, Elem, Elem-keep, count, arith, eq_iff, str_eq, not, ◌&&◌,
}
use kohaku_hub.Db.{Repository}
use kohaku_hub.Lfs.Gc.{Storage, is_active_lfs, in_scope, delete_object, cleanup_lfs_object}
use kohaku_hub.Lfs.Gc.Safety.{Uses}

-- Whenever S3 carries out the deletion and no active file of the given repository uses the object, the
-- cleanup deletes it: also if an active file of another repository uses it, which it still does then.
pub cleanup_ignores_other_repositories :
    (s3_deletes : String → Bool) (sha256 : String) (repo other : Repository) (s : Storage)
    → s3_deletes sha256 ≡ true
    → count (λ f. is_active_lfs sha256 f && in_scope (some repo) f.repository) s.db.files ≡ 0
    → Uses (some other) sha256 s.db
    → ((cleanup_lfs_object s3_deletes sha256 (some repo) s).0 ≡ true)
      × (¬ Elem sha256 (cleanup_lfs_object s3_deletes sha256 (some repo) s).1.objects)
      × Uses (some other) sha256 (cleanup_lfs_object s3_deletes sha256 (some repo) s).1.db
cleanup_ignores_other_repositories s3_deletes sha256 repo other s deletes unused used =
    (ap (λ (r : Bool × Storage). r.0) done, rw done gone, rw done still)
  where
    done :
        cleanup_lfs_object s3_deletes sha256 (some repo) s
        ≡ (true, delete_object sha256 (some repo) s)
    done = unfold cleanup_lfs_object in ground arith

    gone : ¬ Elem sha256 (delete_object sha256 (some repo) s).objects
    gone e =
        unfold delete_object in
        let (_, kept) = (Elem-keep (λ key. not (str_eq key sha256)) s.objects sha256).0 e in
        absurd (ground (arith, eq_iff sha256 sha256))

    still : Uses (some other) sha256 (delete_object sha256 (some repo) s).db
    still =
        unfold delete_object in
        record {
          file = used.file;
          stored = used.stored;
          of_repo = used.of_repo;
          hash = used.hash;
          is_lfs = used.is_lfs;
          active = used.active;
        }
