-- ===== src/Lfs/Gc/Order.antt =====
-- The query and the loop of `get_old_lfs_versions` (src/kohakuhub/api/repo/utils/gc.py): rows by time,
-- and their hashes without repetition.
use kohaku_hub.Prelude.{
  ◌≤◌, ◌≡◌, refl, sym, ap, ◌↔◌, ◌⊎◌, String, false, List, [], ◌∷◌, Elem, any, leb, arith, eq_iff,
  str_eq, Bool-cases, inl, inr,
}
use kohaku_hub.Db.{LfsObjectHistory}
use kohaku_hub.Lfs.Gc.{insert_newest, newest_first, unique_oids}

abbrev pub NoRepeat : List String → Type 0
NoRepeat [] = Unit
NoRepeat (x ∷ xs) = (¬ Elem x xs) × NoRepeat xs

pub unique_oids-unseen :
    (seen : List String) (rows : List LfsObjectHistory) (x : String)
    → Elem x (unique_oids seen rows)
    → any (str_eq x) seen ≡ false
unfolding unique_oids any
unique_oids-unseen seen [] x e = elim e [ ]
unique_oids-unseen seen (v ∷ rows) x e = elim (Bool-cases (any (str_eq v.sha256) seen)) [
  | inl old ↦ unique_oids-unseen seen rows x (rw old at e)
  | inr new ↦ elim (rw new at e) [
    | inl same ↦ rw same new
    | inr later ↦ let unseen = unique_oids-unseen (v.sha256 ∷ seen) rows x later in ground arith
  ]
]

pub unique_oids-NoRepeat :
    (seen : List String) (rows : List LfsObjectHistory) → NoRepeat (unique_oids seen rows)
unfolding unique_oids any
unique_oids-NoRepeat seen [] = tt
unique_oids-NoRepeat seen (v ∷ rows) = elim (Bool-cases (any (str_eq v.sha256) seen)) [
  | inl old ↦ rw old (unique_oids-NoRepeat seen rows)
  | inr new ↦ rw new (
    λ e.
        let unseen = unique_oids-unseen (v.sha256 ∷ seen) rows v.sha256 e in
        absurd (ground (arith, eq_iff v.sha256 v.sha256)),
    unique_oids-NoRepeat (v.sha256 ∷ seen) rows,
  )
]

pub unique_oids_complete :
    (seen : List String) (rows : List LfsObjectHistory) (h : LfsObjectHistory)
    → Elem h rows
    → any (str_eq h.sha256) seen ≡ false
    → Elem h.sha256 (unique_oids seen rows)
unfolding unique_oids any
unique_oids_complete seen [] h e unseen = elim e [ ]
unique_oids_complete seen (v ∷ rows) h e unseen = elim (Bool-cases (any (str_eq v.sha256) seen)) [
  | inl old ↦ rw old (elim e [
    | inl same ↦ absurd (cc (ap (λ (r : LfsObjectHistory). any (str_eq r.sha256) seen) same))
    | inr later ↦ unique_oids_complete seen rows h later unseen
  ])
  | inr new ↦ rw new (elim (Bool-cases (str_eq h.sha256 v.sha256)) [
    | inl same ↦ inl ((eq_iff h.sha256 v.sha256).0 same)
    | inr differs ↦ elim e [
      | inl this ↦ inl (ap (λ (r : LfsObjectHistory). r.sha256) this)
      | inr later ↦ inr (unique_oids_complete (v.sha256 ∷ seen) rows h later (ground arith))
    ]
  ])
]

pub unique_oids_sound :
    (seen : List String) (rows : List LfsObjectHistory) (x : String)
    → Elem x (unique_oids seen rows)
    → (h : LfsObjectHistory) × Elem h rows × (h.sha256 ≡ x)
unfolding unique_oids
unique_oids_sound seen [] x e = elim e [ ]
unique_oids_sound seen (v ∷ rows) x e = elim (Bool-cases (any (str_eq v.sha256) seen)) [
  | inl old ↦ let (h, at, same) = unique_oids_sound seen rows x (rw old at e) in (h, inr at, same)
  | inr new ↦ elim (rw new at e) [
    | inl this ↦ (v, inl refl, sym this)
    | inr later ↦
        let (h, at, same) = unique_oids_sound (v.sha256 ∷ seen) rows x later in (h, inr at, same)
  ]
]

insert_newest-Elem :
    (h : LfsObjectHistory) (rows : List LfsObjectHistory) (x : LfsObjectHistory)
    → Elem x (insert_newest h rows) ↔ ((x ≡ h) ⊎ Elem x rows)
unfolding insert_newest
insert_newest-Elem h [] x = (λ e. e, λ e. e)
insert_newest-Elem h (r ∷ rows) x =
    let (to, from) = insert_newest-Elem h rows x in
    elim (Bool-cases (leb r.created_at h.created_at)) [
      | inl front ↦ rw front (λ e. e, λ e. e)
      | inr later ↦ rw later (
        λ e. elim e [
          | inl this ↦ inr (inl this)
          | inr rest ↦ elim (to rest) [ inl new ↦ inl new | inr old ↦ inr (inr old) ]
        ],
        λ e. elim e [
          | inl new ↦ inr (from (inl new))
          | inr rest ↦ elim rest [ inl this ↦ inl this | inr old ↦ inr (from (inr old)) ]
        ],
      )
    ]

pub newest_first-Elem :
    (rows : List LfsObjectHistory) (x : LfsObjectHistory) → Elem x (newest_first rows) ↔ Elem x rows
unfolding newest_first
newest_first-Elem [] x = (λ e. e, λ e. e)
newest_first-Elem (h ∷ rows) x =
    let (to, from) = insert_newest-Elem h (newest_first rows) x in
    let (to', from') = newest_first-Elem rows x in
    (
      λ e. elim (to e) [ inl this ↦ inl this | inr later ↦ inr (to' later) ],
      λ e. from (elim e [ inl this ↦ inl this | inr later ↦ inr (from' later) ]),
    )

-- Each row is at least as new as those behind it.
abbrev pub Newest : List LfsObjectHistory → Type 0
Newest [] = Unit
Newest (h ∷ rows) =
    ((x : LfsObjectHistory) → Elem x rows → x.created_at ≤ h.created_at) × Newest rows

insert_newest-Newest :
    (h : LfsObjectHistory) (rows : List LfsObjectHistory)
    → Newest rows
    → Newest (insert_newest h rows)
unfolding insert_newest
insert_newest-Newest h [] sorted = (λ x e. elim e [ ], tt)
insert_newest-Newest h (r ∷ rows) (first, sorted) =
    elim (Bool-cases (leb r.created_at h.created_at)) [
      | inl front ↦
          let le : r.created_at ≤ h.created_at = ground arith in
          rw front (
            λ x e. elim e [
              | inl this ↦ rw this le
              | inr later ↦ let before = first x later in omega arith
            ],
            (first, sorted),
          )
      | inr behind ↦
          let lt : h.created_at ≤ r.created_at = ground arith in
          rw behind (
            λ x e. elim ((insert_newest-Elem h rows x).0 e) [
              | inl this ↦ rw this lt
              | inr later ↦ first x later
            ],
            insert_newest-Newest h rows sorted,
          )
    ]

pub newest_first-Newest : (rows : List LfsObjectHistory) → Newest (newest_first rows)
unfolding newest_first
newest_first-Newest [] = tt
newest_first-Newest (h ∷ rows) =
    insert_newest-Newest h (newest_first rows) (newest_first-Newest rows)
