-- ===== src/Quota/Calculate/Unique.antt =====
-- Bytes of LFS objects are counted once each (src/kohakuhub/api/quota/util.py).
use kohaku_hub.Prelude.{
  ◌+◌, ◌≤◌, ◌≡◌, refl, Bool, true, List, [], ◌∷◌, ◌++◌, arith, any, if◌then◌else◌, ◌||◌, eq_iff,
}
use kohaku_hub.Db.{LfsObjectHistory}
use kohaku_hub.Quota.Calculate.{sum_sizes, same_object, distinct}

pub sum_sizes-distinct-le :
    (rows : List LfsObjectHistory) → sum_sizes (distinct rows) ≤ sum_sizes rows
unfolding sum_sizes distinct
sum_sizes-distinct-le [] = omega arith
sum_sizes-distinct-le (h ∷ rows) = ground (arith, sum_sizes-distinct-le rows)

same_object-cong :
    (a b c : LfsObjectHistory) → same_object a b ≡ true → same_object a c ≡ same_object b c
same_object-cong a b c h =
    ground (arith, eq_iff a.sha256 b.sha256, eq_iff a.sha256 c.sha256, eq_iff b.sha256 c.sha256)

any-same_object :
    (a b : LfsObjectHistory) (rows : List LfsObjectHistory)
    → same_object a b ≡ true
    → any (same_object a) rows ≡ any (same_object b) rows
unfolding any
any-same_object a b [] h = refl
any-same_object a b (c ∷ rows) h =
    ground (arith, same_object-cong a b c h, any-same_object a b rows h)

same_object_comm : (a b : LfsObjectHistory) → same_object a b ≡ same_object b a
same_object_comm a b = ground (arith, eq_iff a.sha256 b.sha256, eq_iff b.sha256 a.sha256)

any-append_row :
    (p : LfsObjectHistory → Bool) (rows : List LfsObjectHistory) (h : LfsObjectHistory)
    → any p (rows ++ h ∷ []) ≡ (any p rows || p h)
unfolding any
any-append_row p [] h = ground arith
any-append_row p (r ∷ rows) h = ground (arith, any-append_row p rows h)

-- Another row of an object that is in the history adds nothing; one of a new object adds its size.
pub sum_sizes-distinct-append :
    (rows : List LfsObjectHistory) (h : LfsObjectHistory)
    → sum_sizes (distinct (rows ++ h ∷ []))
      ≡ sum_sizes (distinct rows) + (if any (same_object h) rows then 0 else h.size)
unfolding sum_sizes distinct any
sum_sizes-distinct-append [] h = omega arith
sum_sizes-distinct-append (r ∷ rows) h = ground (
  arith,
  any-append_row (same_object r) rows h,
  any-same_object r h rows,
  same_object_comm h r,
  sum_sizes-distinct-append rows h,
)
