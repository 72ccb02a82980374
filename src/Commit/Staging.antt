-- ===== src/Commit/Staging.antt =====
-- Listings and deletions in LakeFS, as the deletion of a folder in
-- src/kohakuhub/api/commit/routers/operations.py goes through them.
use kohaku_hub.Prelude.{
  ℕ, zero, suc, ◌≡◌, refl, ◌⊎◌, String, Bool, true, false, ◌||◌, Option, none, some, List, [], ◌∷◌,
  ◌++◌, arith, Bool-cases, Option-cases, inl, inr,
}
use kohaku_hub.Config.{Config}
use kohaku_hub.Db.{Repository}
use kohaku_hub.Commit.{LakeFs, LakeObject, LakePage, Services, Work}
use kohaku_hub.Commit.Process.{
  Listing, listed, raised, unfinished, list_all, and_listed, try_delete, delete_objects,
}

-- The pages of a complete listing from `after` on hold these objects.
pub data Pages (list : String → Option LakePage) : String → List LakeObject → Type 0 where
  last :
      (after : String) (objects : List LakeObject) (page : LakePage)
      → list after ≡ some page
      → page.has_more ≡ false
      → objects ≡ page.results
      → Pages list after objects
  next :
      (after : String) (objects : List LakeObject) (page : LakePage) (rest : List LakeObject)
      → list after ≡ some page
      → page.has_more ≡ true
      → objects ≡ page.results ++ rest
      → Pages list page.next_offset rest
      → Pages list after objects

-- The request for a page, this one or a later one, raises.
pub data Breaks (list : String → Option LakePage) : String → Type 0 where
  here : (after : String) → list after ≡ none → Breaks list after
  later :
      (after : String) (page : LakePage)
      → list after ≡ some page
      → page.has_more ≡ true
      → Breaks list page.next_offset
      → Breaks list after

and_listed-cases :
    (results objects : List LakeObject) (l : Listing)
    → and_listed results l ≡ listed objects
    → (rest : List LakeObject) × (l ≡ listed rest) × (objects ≡ results ++ rest)
and_listed-cases results objects (listed rest) h = (rest, refl, ground arith)
and_listed-cases results objects raised h = absurd (cc h)
and_listed-cases results objects unfinished h = absurd (cc h)

and_listed-raised :
    (results : List LakeObject) (l : Listing) → and_listed results l ≡ raised → l ≡ raised
and_listed-raised results (listed rest) h = absurd (cc h)
and_listed-raised results raised h = refl
and_listed-raised results unfinished h = absurd (cc h)

module _ (list : String → Option LakePage) where
  pub list_all-Pages :
      (fuel : ℕ) (after : String) (objects : List LakeObject)
      → list_all fuel list after ≡ listed objects
      → Pages list after objects
  unfolding list_all
  list_all-Pages zero after objects h = absurd (cc h)
  list_all-Pages (suc fuel) after objects h = elim (Option-cases (list after)) [
    | inl missing ↦ absurd (ground arith)
    | inr (page, found) ↦ elim (Bool-cases page.has_more) [
      | inr no_more ↦ last after objects page found no_more (ground arith)
      | inl more ↦
          let (rest, all, same) =
            and_listed-cases page.results objects (list_all fuel list page.next_offset)
              (ground arith) in
          next after objects page rest found more same
            (list_all-Pages fuel page.next_offset rest all)
    ]
  ]

  pub list_all-Breaks :
      (fuel : ℕ) (after : String) → list_all fuel list after ≡ raised → Breaks list after
  unfolding list_all
  list_all-Breaks zero after h = absurd (cc h)
  list_all-Breaks (suc fuel) after h = elim (Option-cases (list after)) [
    | inl missing ↦ here after missing
    | inr (page, found) ↦ elim (Bool-cases page.has_more) [
      | inr no_more ↦ absurd (ground arith)
      | inl more ↦ later after page found more (
          list_all-Breaks fuel page.next_offset
            (and_listed-raised page.results (list_all fuel list page.next_offset) (ground arith)))
    ]
  ]

module _ (lakefs : LakeFs) (lakefs_repo revision : String) where
  -- The object is deleted, or LakeFS raises and keeps what it has.
  abbrev pub Deletes : String → (lake lake' : lakefs.Lake) → (done : Bool) → Type 0
  Deletes path lake lake' done =
      ((lakefs.delete_object lakefs_repo revision path lake ≡ some lake') × (done ≡ true))
      ⊎ ((lakefs.delete_object lakefs_repo revision path lake ≡ none)
          × (lake' ≡ lake)
          × (done ≡ false))

  -- One object after the other; whether one was deleted.
  abbrev pub DeletesAll :
      List LakeObject → (lake lake' : lakefs.Lake) → (some_deleted : Bool) → Type 0
  DeletesAll [] lake lake' some_deleted = (lake' ≡ lake) × (some_deleted ≡ false)
  DeletesAll (obj ∷ objects) lake lake' some_deleted =
      (mid : lakefs.Lake) × (done more : Bool) × Deletes obj.path lake mid done
      × DeletesAll objects mid lake' more
      × (some_deleted ≡ (done || more))

module _ {lakefs : LakeFs} (cfg : Config) (services : Services) (repo : Repository)
    (lakefs_repo revision : String) where
  pub try_delete-Deletes :
      (path : String) (w : Work lakefs)
      → Deletes lakefs lakefs_repo revision path w.lake
          (try_delete cfg services repo lakefs_repo revision path w).1.lake
          (try_delete cfg services repo lakefs_repo revision path w).0
  try_delete-Deletes path w =
      elim (Option-cases (lakefs.delete_object lakefs_repo revision path w.lake)) [
        | inl missing ↦ inr (missing, ground arith, ground arith)
        | inr (lake, deleted) ↦ inl (ground arith, ground arith)
      ]

  pub delete_objects-DeletesAll :
      (objects : List LakeObject) (w : Work lakefs)
      → DeletesAll lakefs lakefs_repo revision objects w.lake
          (delete_objects cfg services repo lakefs_repo revision objects w).1.lake
          (delete_objects cfg services repo lakefs_repo revision objects w).0
  unfolding delete_objects
  delete_objects-DeletesAll [] w = (refl, refl)
  delete_objects-DeletesAll (obj ∷ objects) w =
      let first = try_delete cfg services repo lakefs_repo revision obj.path w in
      let rest = delete_objects cfg services repo lakefs_repo revision objects first.1 in
      (
        first.1.lake,
        first.0,
        rest.0,
        try_delete-Deletes obj.path w,
        delete_objects-DeletesAll objects first.1,
        refl,
      )
