-- ===== src/Review/Accept/Versions.antt =====
-- The rows after an acceptance: what the new version reads back as, and that no older version has
-- changed.
use groundloom.Base.{
  ℕ, suc, String, ◌≡◌, ◌≢◌, refl, false, Option, none, some, List, [], ◌∷◌, ◌++◌, arith, eq_iff,
  eq_refl, eq_false, ◌==◌, ◌&&◌, find, ap, ◌∙◌, sym, ap₂, find-last,
}
use text.Mathlib.TextLemmas.{append-eq-nil_iff}
use mathlib.Core.List.{append-nil}
use groundloom.Content.Operations.{Block, number_blocks}
use groundloom.Store.{
  Db, Session, Project, ContentVersion, ContentBlock, Patch, RuntimeContext, ok, audit, outbox,
  or_raise-eq-ok, new_id,
}
use groundloom.Review.Reads.{
  version_blocks, rows_of, order_blocks, insert_ordered, get_project, content_blocks, find_version,
}
use groundloom.Review.Writes.{point_project}
use groundloom.Review.Accept.{new_version, patched, block_rows, write_acceptance}

rows_of-append :
    (v w : String) (xs ys : List ContentBlock)
    → rows_of v w (xs ++ ys) ≡ rows_of v w xs ++ rows_of v w ys
rows_of-append v w [] ys = refl
rows_of-append v w (x ∷ xs) ys = ground (arith, rows_of-append v w xs ys)

rows_of-block_rows_ne :
    (v w u x : String) (bs : List Block) → u ≢ v → rows_of v w (block_rows u x bs) ≡ []
rows_of-block_rows_ne v w u x [] h = refl
rows_of-block_rows_ne v w u x (b ∷ bs) h = rw (eq_false u v h) (rows_of-block_rows_ne v w u x bs h)

rows_of-block_rows : (v w : String) (bs : List Block) → rows_of v w (block_rows v w bs) ≡ bs
rows_of-block_rows v w [] = refl
rows_of-block_rows v w (b ∷ bs) =
    rw (eq_refl v, eq_refl w) (ap (λ l. b ∷ l) (rows_of-block_rows v w bs))

-- Blocks that are numbered in their order are in order.
order-number_blocks :
    (n : ℕ) (bs : List Block) → order_blocks (number_blocks n bs) ≡ number_blocks n bs
unfolding number_blocks
order-number_blocks n [] = refl
order-number_blocks n (b ∷ bs) = rw (order-number_blocks (suc n) bs) (first_stays n b bs)
  where
    first_stays :
        (n : ℕ) (b : Block) (bs : List Block)
        → insert_ordered (record b { order_no = n }) (number_blocks (suc n) bs)
          ≡ record b { order_no = n } ∷ number_blocks (suc n) bs
    first_stays n b [] = refl
    first_stays n b (x ∷ xs) = ground arith

-- The project that the pointer is set for.
abbrev pub pointed : String → Project → Project
pointed v p = record p { current_content_version_id = some v }

-- Every query for the project finds it with its new pointer, if it found it before.
find-point_project :
    (id v w : String) (ps : List Project) {p : Project}
    → find (λ q. q.id == id && q.workspace_id == w) ps ≡ some p
    → find (λ q. q.id == id && q.workspace_id == w) (point_project id v ps) ≡ some (pointed v p)
find-point_project id v w [] h = cc
find-point_project id v w (q ∷ qs) {p} h =
    ground (arith, find-point_project id v w qs {p = p}, eq_iff q.id id)

-- Whatever query for the project's id finds, it has the new pointer.
pub found_is_pointed :
    (id v w : String) (ps : List Project) {p : Project}
    → find (λ q. q.id == id && q.workspace_id == w) (point_project id v ps) ≡ some p
    → p.current_content_version_id ≡ some v
found_is_pointed id v w [] h = cc
found_is_pointed id v w (q ∷ qs) {p} h =
    ground (arith, found_is_pointed id v w qs {p = p}, eq_iff q.id id)

not_empty : ¬ (◌≡◌ {A = String} "_" "")
not_empty e = ground (arith, eq_iff "_" "")

pub new_id-ne-empty : (prefix hex : String) → (new_id prefix hex == "") ≡ false
unfolding new_id
new_id-ne-empty prefix hex =
    eq_false (new_id prefix hex) ""
      λ e. not_empty (append-eq-nil_iff.0 ((append-eq-nil_iff {p = prefix}).0 e).1).0

-- No version and no block of the session carries the id.
pub record IsNewVersion (id : String) (d : Db) : Type 0 where
  pub no_version :
      (p w : String)
      → find (λ v. v.id == id && (v.project_id == p && v.workspace_id == w)) d.versions ≡ none
  pub no_blocks : (w : String) → rows_of id w d.blocks ≡ []

module _ (ctx : RuntimeContext) (reason : Option String) (p : Patch) (project : Project)
    (base : ContentVersion) (blocks : List Block) (s : Session) where
  abbrev pub after : Session
  after = write_acceptance ctx reason p project base blocks s

  abbrev pub made : ContentVersion
  made = new_version ctx p project base s

  -- The rows of blocks of every older version are read as they were before the acceptance.
  pub history_is_kept :
      (version workspace : String)
      → version ≢ made.id
      → version_blocks version workspace after.work ≡ version_blocks version workspace s.work
  unfolding version_blocks write_acceptance audit outbox
  history_is_kept version workspace ne = ap order_blocks (
      rows_of-append version workspace s.work.blocks _
      ∙ ap (λ l. rows_of version workspace s.work.blocks ++ l)
          (rows_of-block_rows_ne version workspace made.id ctx.workspace_id
            (number_blocks 0 (patched p blocks s).0) (λ e. ne (sym e)))
      ∙ append-nil (rows_of version workspace s.work.blocks))

  pub new_version_blocks :
      IsNewVersion made.id s.work
      → version_blocks made.id ctx.workspace_id after.work ≡ number_blocks 0 (patched p blocks s).0
  unfolding version_blocks write_acceptance audit outbox
  new_version_blocks new =
      ap order_blocks (
        rows_of-append made.id ctx.workspace_id s.work.blocks _
        ∙ ap₂ (λ k l. k ++ l) (new.no_blocks ctx.workspace_id)
            (rows_of-block_rows made.id ctx.workspace_id (number_blocks 0 (patched p blocks s).0)))
      ∙ order-number_blocks 0 (patched p blocks s).0

  project_is_pointed :
      get_project ctx project.id s.work ≡ ok project
      → get_project ctx project.id after.work ≡ ok (pointed made.id project)
  unfolding get_project write_acceptance audit outbox
  project_is_pointed h = rw (
      find-point_project project.id made.id ctx.workspace_id s.work.projects (or_raise-eq-ok _ _ h))

  version_is_found :
      IsNewVersion made.id s.work
      → find_version ctx (pointed made.id project) (some made.id) after.work ≡ some made
  unfolding write_acceptance audit outbox
  version_is_found new = rw (new_id-ne-empty "cv" (s.uuid4 s.drawn)) (
      find-last _ s.work.versions made (new.no_version project.id ctx.workspace_id)
        (rw (eq_refl made.id, eq_refl project.id, eq_refl ctx.workspace_id)))

  -- After an acceptance the project's current content, as `content_blocks` reads it, is the new
  -- version with exactly the blocks that the patch leaves, in their order and numbered from 0, if no
  -- version and no block had the new version's id before.
  pub content_after :
      IsNewVersion made.id s.work
      → get_project ctx project.id s.work ≡ ok project
      → content_blocks ctx project.id none after.work
        ≡ ok (made, number_blocks 0 (patched p blocks s).0)
  unfolding content_blocks
  content_after new h = rw (project_is_pointed h, version_is_found new, new_version_blocks new)

  pub after_is_committed : after.committed ≡ after.work
  unfolding write_acceptance
  after_is_committed = refl
