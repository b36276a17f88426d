-- ===== src/Review/Accept/Contract.antt =====
-- The stored blocks of a new version: distinct ids, and the payload contract.
use groundloom.Base.{
  ℕ, suc, ◌+◌, String, ◌≡◌, refl, some, List, [], ◌∷◌, arith, ◌==◌, ◌∙◌, sym, subst, inl, inr,
  Bool-cases,
}
use groundloom.Content.Operations.{Block, number_blocks}
use groundloom.Content.Operations.Identity.{count_id, IsUnique, IsFresh, apply_operations-IsUnique}
use groundloom.Content.Operations.Frame.{block_at}
use groundloom.Content.Operations.Contract.{
  IsTyped, IsSound, Holds, AllNameType, apply_operations-IsSound,
}
use groundloom.Content.Operations.Findings.{patch_findings, raises_type_error}
use groundloom.Store.{
  Db, Session, Project, ContentVersion, Patch, Validation, RuntimeContext, ok, >>=-eq-ok,
  raise_if-eq-ok,
}
use groundloom.Review.Reads.{
  Proposal, validate_patch_operations, content_blocks, get_project, pinned_sources, version_blocks,
}
use groundloom.Review.Accept.{DecisionIn, decide, fresh, patched, proposal_of, block_ids}
use groundloom.Review.Accept.Branches.{IsAcceptable-decide, get_project-id}
use groundloom.Review.Accept.Versions.{after, made, IsNewVersion, new_version_blocks}

pub count_id-number_blocks :
    (i : String) (n : ℕ) (bs : List Block) → count_id i (number_blocks n bs) ≡ count_id i bs
unfolding number_blocks
count_id-number_blocks i n [] = refl
count_id-number_blocks i n (b ∷ bs) = omega (arith, count_id-number_blocks i (suc n) bs)

Holds-number_blocks :
    (i : String) (n : ℕ) (bs : List Block)
    → Holds IsTyped (block_at i bs)
    → Holds IsTyped (block_at i (number_blocks n bs))
unfolding number_blocks
Holds-number_blocks i n [] h = tt
Holds-number_blocks i n (b ∷ bs) h = elim (Bool-cases (b.id == i)) [
  | inl e ↦ rw e (rw e at h)
  | inr e ↦ rw e (Holds-number_blocks i (suc n) bs (rw e at h))
]

-- The findings of a validation are those against the blocks that `content_blocks` reads.
findings_of_validation :
    (ctx : RuntimeContext) (id : String) (body : Proposal) (d : Db) (v : Validation)
    (base : ContentVersion) (blocks : List Block)
    → content_blocks ctx id (some body.base_content_version_id) d ≡ ok (base, blocks)
    → validate_patch_operations ctx id body d ≡ ok v
    → (project : Project) × (v.findings
        ≡ patch_findings blocks (pinned_sources project d) body.operations)
unfolding validate_patch_operations
findings_of_validation ctx id body d v base blocks content h =
    let (project, _, h₁) = >>=-eq-ok (get_project ctx id d) _ (rw content at h) in
    let (_, h₂) = raise_if-eq-ok (raises_type_error body.operations) _ _ h₁ in (project, cc h₂)

-- A version that a patch of typed replacements makes, read back from its rows, has blocks with
-- distinct ids that all meet the payload contract, if the base version's do, the ids drawn for its
-- blocks are new, and no version and no block had the new version's id.
pub new_version-IsSound :
    (ctx : RuntimeContext) (patch_id : String) (body : DecisionIn) (s : Session) (p : Patch)
    (project : Project) (base : ContentVersion) (blocks : List Block)
    → decide ctx patch_id body s.work ≡ ok (fresh p project base blocks)
    → IsNewVersion (made ctx body.reason p project base blocks s).id s.work
    → IsFresh (block_ids s) (s.drawn + 1) blocks
    → AllNameType p.operations
    → IsUnique blocks
    → IsSound blocks
    → let t = after ctx body.reason p project base blocks s in
      let stored =
        version_blocks (made ctx body.reason p project base blocks s).id ctx.workspace_id t.work in
      IsUnique stored × IsSound stored
new_version-IsSound ctx patch_id body s p project base blocks h new ids named unique sound =
    let a = IsAcceptable-decide ctx patch_id body s.work p project base blocks h in
    let same = get_project-id ctx p.project_id s.work a.project_found in
    let content =
      subst (λ i. content_blocks ctx i (some p.base_content_version_id) s.work ≡ ok (base, blocks))
        same a.content in
    let (v, valid, clean) = a.validated in
    let (owner, findings) =
      findings_of_validation ctx p.project_id (proposal_of p) s.work v base blocks content valid in
    rw (new_version_blocks ctx body.reason p project base blocks s new) (
      λ i.
          rw count_id-number_blocks (
            apply_operations-IsUnique (block_ids s) (s.drawn + 1) p.operations blocks ids unique i),
      λ i. Holds-number_blocks i 0 (patched p blocks s).0 (
          apply_operations-IsSound blocks (pinned_sources owner s.work) (block_ids s) (s.drawn + 1)
            p.operations blocks (sym findings ∙ clean) named ids unique sound i),
    )
