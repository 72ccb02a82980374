-- ===== src/Lfs/Gc/Oldest.antt =====
-- The old versions of a file are its oldest ones: `get_old_lfs_versions` of
-- src/kohakuhub/api/repo/utils/gc.py.
use kohaku_hub.Prelude.{
  ℕ, zero, suc, ◌-◌, ◌≤◌, ◌≡◌, refl, sym, ap, ◌∙◌, ◌↔◌, ◌⊎◌, String, true, List, [], ◌∷◌, Elem,
  Elem-keep, any, keep, length, length-drop, take, drop, arith, eq_iff, str_eq, Bool-cases, inl,
  inr,
}
use kohaku_hub.Db.{Db, Repository, LfsObjectHistory}
use kohaku_hub.Lfs.Gc.{newest_first, unique_oids, is_version, versions, get_old_lfs_versions}
use kohaku_hub.Lfs.Gc.Order.{
  NoRepeat, Newest, unique_oids-unseen, unique_oids-NoRepeat, newest_first-Elem,
  newest_first-Newest,
}
use kohaku_hub.Lfs.Gc.Versions.{Elem-drop, get_old-eq-drop, versions_iff}

Elem-take_or_drop :
    (n : ℕ) (xs : List String) (x : String) → Elem x xs → Elem x (take n xs) ⊎ Elem x (drop n xs)
Elem-take_or_drop zero xs x e = inr e
Elem-take_or_drop (suc n) [] x e = elim e [ ]
Elem-take_or_drop (suc n) (y ∷ ys) x (inl same) = inl (inl same)
Elem-take_or_drop (suc n) (y ∷ ys) x (inr later) = elim (Elem-take_or_drop n ys x later) [
  | inl front ↦ inl (inr front)
  | inr back ↦ inr back
]

drop-NoRepeat : (n : ℕ) (xs : List String) → NoRepeat xs → NoRepeat (drop n xs)
drop-NoRepeat zero xs unique = unique
drop-NoRepeat (suc n) [] unique = tt
drop-NoRepeat (suc n) (x ∷ xs) (fresh, unique) = drop-NoRepeat n xs unique

-- In sorted rows a hash of the front has a row that is at least as new as all rows of one behind it.
front_newer :
    (n : ℕ) (seen : List String) (rows : List LfsObjectHistory) (x y : String)
    → Newest rows
    → Elem y (take n (unique_oids seen rows))
    → Elem x (drop n (unique_oids seen rows))
    → (h : LfsObjectHistory) × Elem h rows
      × (h.sha256 ≡ y)
      × ((g : LfsObjectHistory) → Elem g rows → g.sha256 ≡ x → g.created_at ≤ h.created_at)
unfolding unique_oids any
front_newer zero seen rows x y sorted front back = elim front [ ]
front_newer (suc n) seen [] x y sorted front back = elim front [ ]
front_newer (suc n) seen (v ∷ rows) x y (first, sorted) front back =
    elim (Bool-cases (any (str_eq v.sha256) seen)) [
      | inl old ↦
          let (h, at, same, newer) =
            front_newer (suc n) seen rows x y sorted (rw old at front) (rw old at back) in
          let unseen =
            unique_oids-unseen seen rows x
              (Elem-drop (suc n) (unique_oids seen rows) x (rw old at back)) in
          (
            h,
            inr at,
            same,
            λ g e this. elim e [
              | inl is ↦
                  let same_sha : v.sha256 ≡ x =
                    ap (λ (r : LfsObjectHistory). r.sha256) (sym is) ∙ this in
                  absurd (cc (ap (λ s. any (str_eq s) seen) same_sha, old, unseen))
              | inr later ↦ newer g later this
            ],
          )
      | inr new ↦
          let back' = rw new at back in
          elim (rw new at front) [
            | inl this ↦ (
              v,
              inl refl,
              sym this,
              λ g e same. elim e [ inl is ↦ rw is (omega arith) | inr later ↦ first g later ],
            )
            | inr behind ↦
                let seen' = v.sha256 ∷ seen in
                let (h, at, same, newer) = front_newer n seen' rows x y sorted behind back' in
                let unseen =
                  unique_oids-unseen seen' rows x (Elem-drop n (unique_oids seen' rows) x back') in
                (
                  h,
                  inr at,
                  same,
                  λ g e this. elim e [
                    | inl is ↦
                        let same_sha : v.sha256 ≡ x =
                          ap (λ (r : LfsObjectHistory). r.sha256) (sym is) ∙ this in
                        let t = (eq_iff x v.sha256).1 (sym same_sha) in
                        absurd (ground (arith, unseen, t))
                    | inr later ↦ newer g later this
                  ],
                )
          ]
    ]

module _ (repo : Repository) (path : String) (db : Db) where
  -- A hash of a row of the history that is about the file.
  abbrev pub IsVersion : String → Type 0
  IsVersion x =
      (h : LfsObjectHistory) × Elem h db.lfs_history
      × (is_version repo path h ≡ true)
      × (h.sha256 ≡ x)

  -- Some row of the first version is at least as new as every row of the second.
  abbrev pub AsNew : String → String → Type 0
  AsNew y x =
      (h : LfsObjectHistory) × Elem h db.lfs_history
      × (is_version repo path h ≡ true)
      × (h.sha256 ≡ y)
      × ((g : LfsObjectHistory)
          → Elem g db.lfs_history
          → is_version repo path g ≡ true
          → g.sha256 ≡ x
          → g.created_at ≤ h.created_at)

  kept-AsNew :
      (keep_count : ℕ) (x y : String)
      → Elem x (drop keep_count (versions repo path db))
      → Elem y (take keep_count (versions repo path db))
      → AsNew y x
  unfolding versions
  kept-AsNew keep_count x y old kept =
      let rows = keep (is_version repo path) db.lfs_history in
      let (h, at, same, newer) =
        front_newer keep_count [] (newest_first rows) x y (newest_first-Newest rows) kept old in
      let (stored, hit) =
        (Elem-keep (is_version repo path) db.lfs_history h).0 ((newest_first-Elem rows h).0 at) in
      (
        h,
        stored,
        hit,
        same,
        λ g e version this.
            newer g
              ((newest_first-Elem rows g).1
                ((Elem-keep (is_version repo path) db.lfs_history g).1 (e, version)))
              this,
      )

  versions-NoRepeat : NoRepeat (versions repo path db)
  unfolding versions
  versions-NoRepeat =
      unique_oids-NoRepeat [] (newest_first (keep (is_version repo path) db.lfs_history))

  -- The old versions of a file are versions of it, without repetition, and as many as the file has
  -- versions beyond the number to keep. They are its oldest: each version that is kept has a row
  -- that is at least as new as every row of an old one.
  pub get_old_lfs_versions_effect :
      (keep_count : ℕ)
      → ((x : String) → Elem x (get_old_lfs_versions repo path keep_count db) → IsVersion x)
        × NoRepeat (get_old_lfs_versions repo path keep_count db)
        × ((all : List String) × NoRepeat all
            × ((x : String) → Elem x all ↔ IsVersion x)
            × (length (get_old_lfs_versions repo path keep_count db) ≡ length all - keep_count))
        × ((x y : String)
            → Elem x (get_old_lfs_versions repo path keep_count db)
            → IsVersion y
            → ¬ Elem y (get_old_lfs_versions repo path keep_count db)
            → AsNew y x)
  get_old_lfs_versions_effect keep_count =
      let all = versions repo path db in
      rw (get_old-eq-drop repo path keep_count db) (
        (λ x e. (versions_iff repo path db x).0 (Elem-drop keep_count all x e)),
        drop-NoRepeat keep_count all versions-NoRepeat,
        (all, versions-NoRepeat, versions_iff repo path db, length-drop keep_count all),
        λ x y old version kept.
            elim (Elem-take_or_drop keep_count all y ((versions_iff repo path db y).1 version)) [
              | inl front ↦ kept-AsNew keep_count x y old front
              | inr back ↦ absurd (kept back)
            ],
      )
