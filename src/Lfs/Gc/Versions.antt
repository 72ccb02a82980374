-- ===== src/Lfs/Gc/Versions.antt =====
-- Which versions of a file are old: `get_old_lfs_versions` of src/kohakuhub/api/repo/utils/gc.py.
use mathlib.Core.Path.{subst}
use kohaku_hub.Prelude.{
  ℕ, zero, suc, ◌-◌, ◌≤◌, ◌<◌, ◌≡◌, ◌≢◌, refl, sym, ap, ◌↔◌, String, true, List, [], ◌∷◌, Elem,
  Elem-keep, any, keep, length, length-drop, take, drop, leb, arith, eq_iff, str_eq, Bool-cases,
  inl, inr,
}
use kohaku_hub.Db.{Db, Repository, LfsObjectHistory}
use kohaku_hub.Lfs.Gc.{newest_first, unique_oids, is_version, versions, get_old_lfs_versions}
use kohaku_hub.Lfs.Gc.Order.{
  NoRepeat, Newest, unique_oids-NoRepeat, unique_oids_complete, unique_oids_sound,
  newest_first-Elem, newest_first-Newest,
}

pub Elem-drop : (n : ℕ) (xs : List String) (x : String) → Elem x (drop n xs) → Elem x xs
Elem-drop zero xs x e = e
Elem-drop (suc n) [] x e = e
Elem-drop (suc n) (y ∷ ys) x e = inr (Elem-drop n ys x e)

take-drop_disjoint :
    (n : ℕ) (xs : List String) (x : String)
    → NoRepeat xs
    → Elem x (take n xs)
    → Elem x (drop n xs)
    → ⊥
take-drop_disjoint zero xs x unique e f = elim e [ ]
take-drop_disjoint (suc n) [] x unique e f = elim e [ ]
take-drop_disjoint (suc n) (y ∷ ys) x (fresh, unique) (inl same) f =
    fresh (subst (λ z. Elem z ys) same (Elem-drop n ys x f))
take-drop_disjoint (suc n) (y ∷ ys) x (fresh, unique) (inr later) f =
    take-drop_disjoint n ys x unique later f

drop_all : (n : ℕ) (xs : List String) → length xs ≤ n → drop n xs ≡ []
drop_all zero [] le = refl
drop_all zero (x ∷ xs) le = absurd (omega arith)
drop_all (suc n) [] le = refl
drop_all (suc n) (x ∷ xs) le = drop_all n xs (omega arith)

pub get_old-eq-drop :
    (repo : Repository) (path : String) (keep_count : ℕ) (db : Db)
    → get_old_lfs_versions repo path keep_count db ≡ drop keep_count (versions repo path db)
unfolding get_old_lfs_versions
get_old-eq-drop repo path keep_count db =
    elim (Bool-cases (leb (length (versions repo path db)) keep_count)) [
      | inl few ↦ rw few (sym (drop_all keep_count (versions repo path db) (ground arith)))
      | inr many ↦ rw many
    ]

Newest-head :
    (keep_count : ℕ) (rows : List LfsObjectHistory) (h : LfsObjectHistory)
    → 0 < keep_count
    → Newest rows
    → Elem h rows
    → ((r : LfsObjectHistory) → Elem r rows → r.sha256 ≢ h.sha256 → r.created_at < h.created_at)
    → Elem h.sha256 (take keep_count (unique_oids [] rows))
unfolding unique_oids any
Newest-head zero rows h some_kept sorted e newest = absurd (omega arith)
Newest-head (suc k) [] h some_kept sorted e newest = elim e [ ]
Newest-head (suc k) (r ∷ rows) h some_kept (first, sorted) e newest =
    elim (Bool-cases (str_eq r.sha256 h.sha256)) [
      | inl same ↦ inl (sym ((eq_iff r.sha256 h.sha256).0 same))
      | inr differs ↦
          let other : r.sha256 ≢ h.sha256 = λ s. cc ((eq_iff r.sha256 h.sha256).1 s) in
          let older = newest r (inl refl) other in
          elim e [
            | inl this ↦ absurd (other (sym (ap (λ (x : LfsObjectHistory). x.sha256) this)))
            | inr later ↦ let newer = first h later in absurd (omega arith)
          ]
    ]

module _ (repo : Repository) (path : String) (db : Db) where
  -- A hash is a version of the file exactly if a row of the history is about it and the file.
  pub versions_iff :
      (x : String)
      → Elem x (versions repo path db) ↔ (
          (h : LfsObjectHistory) × Elem h db.lfs_history
          × (is_version repo path h ≡ true)
          × (h.sha256 ≡ x))
  unfolding versions any
  versions_iff x =
      let rows = keep (is_version repo path) db.lfs_history in
      (
        λ e.
            let (h, at, same) = unique_oids_sound [] (newest_first rows) x e in
            let (stored, hit) =
              (Elem-keep (is_version repo path) db.lfs_history h).0
                ((newest_first-Elem rows h).0 at) in
            (h, stored, hit, same),
        λ (h, stored, hit, same).
            subst (λ z. Elem z (unique_oids [] (newest_first rows))) same
              (unique_oids_complete [] (newest_first rows) h
                ((newest_first-Elem rows h).1
                  ((Elem-keep (is_version repo path) db.lfs_history h).1 (stored, hit)))
                refl),
      )

  -- The old versions of a file: each is a version of it; the newest ones, as many as are to be kept, are
  -- not among them; and there are as many as there are distinct versions beyond that number.
  pub get_old_lfs_versions_parts :
      (keep_count : ℕ)
      → ((x : String)
          → Elem x (get_old_lfs_versions repo path keep_count db)
          → (h : LfsObjectHistory) × Elem h db.lfs_history
            × (is_version repo path h ≡ true)
            × (h.sha256 ≡ x))
        × ((x : String)
            → Elem x (take keep_count (versions repo path db))
            → ¬ Elem x (get_old_lfs_versions repo path keep_count db))
        × (length (get_old_lfs_versions repo path keep_count db)
            ≡ length (versions repo path db) - keep_count)
  get_old_lfs_versions_parts keep_count = rw (get_old-eq-drop repo path keep_count db) (
    λ x e. (versions_iff x).0 (Elem-drop keep_count (versions repo path db) x e),
    λ x e f. take-drop_disjoint keep_count (versions repo path db) x no_repeat e f,
    length-drop keep_count (versions repo path db),
  )
    where
      no_repeat : NoRepeat (versions repo path db)
      no_repeat =
          unfold versions in
          unique_oids-NoRepeat [] (newest_first (keep (is_version repo path) db.lfs_history))

  -- While at least one version is kept, the version of a row that is newer than every row of the file
  -- with another hash is not old.
  pub newest_version_kept :
      (keep_count : ℕ) (h : LfsObjectHistory)
      → 0 < keep_count
      → Elem h db.lfs_history
      → is_version repo path h ≡ true
      → ((r : LfsObjectHistory)
          → Elem r db.lfs_history
          → is_version repo path r ≡ true
          → r.sha256 ≢ h.sha256
          → r.created_at < h.created_at)
      → ¬ Elem h.sha256 (get_old_lfs_versions repo path keep_count db)
  unfolding versions
  newest_version_kept keep_count h some_kept stored hit newest =
      let rows = keep (is_version repo path) db.lfs_history in
      let at =
        Newest-head keep_count (newest_first rows) h some_kept (newest_first-Newest rows)
          ((newest_first-Elem rows h).1
            ((Elem-keep (is_version repo path) db.lfs_history h).1 (stored, hit)))
          (λ r e.
            let (kept, version) =
              (Elem-keep (is_version repo path) db.lfs_history r).0
                ((newest_first-Elem rows r).0 e) in
            newest r kept version) in
      (get_old_lfs_versions_parts keep_count).1 h.sha256 at
