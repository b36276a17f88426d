-- ===== src/Review/Tests.antt =====
-- Runs of the review service on a small database, and its theorems at concrete inputs.
use groundloom.Base.{
  ◌+◌, ◌<◌, String, ◌≡◌, ◌≢◌, refl, none, some, [], ◌∷◌, ◌⊎◌, arith, eq_iff, ap, text_len,
}
use groundloom.Content.BlockTypes.{validate_block_payload}
use groundloom.Content.Operations.{number_blocks, apply_operation, apply_operations}
use groundloom.Content.Operations.Findings.{patch_findings, raises_type_error}
use groundloom.Content.Operations.Gaps.{replacement}
use text.Mathlib.TextLemmas.{append_cancel_left, length-append}
use Prim.Native.String.{count, ◌++◌ as ◌+++◌}
use groundloom.Content.Operations.Identity.{IsUnique, IsFresh}
use groundloom.Content.Operations.Contract.{IsSound}
use groundloom.Content.Samples.{
  tally-injective, version-IsUnique, version-IsSound, tally, version, text_payload,
}
use groundloom.Store.{
  Session, Project, ContentVersion, Patch, accepted, ok, err, new_id, require, audit, outbox,
}
use groundloom.Review.Reads.{
  get_project, get_patch, content_blocks, version_blocks, validate_patch_operations,
}
use groundloom.Review.Accept.{
  DecisionIn, stale, fresh, decide, perform, accept_patch, conflict_error, write_acceptance,
  patched,
}
use groundloom.Review.Accept.Branches.{IsAcceptable, IsAcceptable-decide}
use groundloom.Review.Accept.Versions.{after, made, IsNewVersion}
use groundloom.Review.Accept.Conflicts.{IsConflict, accept_patch_error}
use groundloom.Review.Accept.Outcomes.{
  IsAccepted, accept_patch_accepts, only_current_base, accept_patch_again,
}
use groundloom.Review.Accept.Contract.{new_version-IsSound}
use groundloom.Review.Samples.{reviewer, project, base, proposed, db, session, decision}

decides : decide reviewer "pat1" decision db ≡ ok (fresh (proposed "pat1") project base version)
unfolding decide require get_patch validate_patch_operations content_blocks get_project
    version_blocks patch_findings raises_type_error validate_block_payload text_len
decides = refl

count-new_id : (hex : String) → count (new_id "blk" hex) ≡ 4 + count hex
unfolding new_id
count-new_id hex = omega (arith, length-append "blk" ("_" +++ hex), length-append "_" hex)

new_id_ne : (hex s : String) → count s < 4 → new_id "blk" hex ≢ s
new_id_ne hex s h e = absurd (omega (arith, ap count e, count-new_id hex))

new_id-injective : (a b : String) → new_id "blk" a ≡ new_id "blk" b → a ≡ b
unfolding new_id
new_id-injective a b e = append_cancel_left "_" a b (append_cancel_left "blk" _ _ e)

block_ids-IsFresh : IsFresh (λ n. new_id "blk" (tally n)) 1 version
block_ids-IsFresh = record {
  unused = λ n h. ground (
    arith,
    eq_iff "a" (new_id "blk" (tally n)),
    eq_iff "b" (new_id "blk" (tally n)),
    eq_iff "c" (new_id "blk" (tally n)),
    new_id_ne (tally n) "a" (omega arith),
    new_id_ne (tally n) "b" (omega arith),
    new_id_ne (tally n) "c" (omega arith),
  );
  distinct = λ m n e. tally-injective m n (new_id-injective _ _ e);
}

made_is_new : IsNewVersion (made reviewer none (proposed "pat1") project base version session).id db
unfolding new_id
made_is_new = record { no_version = λ p w. refl; no_blocks = λ w. refl }

IsAcceptable-decide_example :
    IsAcceptable reviewer "pat1" decision db (proposed "pat1") project base version
IsAcceptable-decide_example =
    IsAcceptable-decide reviewer "pat1" decision db (proposed "pat1") project base version decides

accept_patch_accepts_example :
    let v = made reviewer none (proposed "pat1") project base version session in
    ((accept_patch reviewer "pat1" decision session).0
      ≡ ok (record (proposed "pat1") { status = accepted }, v))
    × IsAccepted reviewer
        (proposed "pat1")
        project
        base
        v
        (number_blocks 0 (patched (proposed "pat1") version session).0)
        session
        (accept_patch reviewer "pat1" decision session).1
accept_patch_accepts_example =
    accept_patch_accepts reviewer "pat1" decision session (proposed "pat1") project base version
      decides made_is_new

new_version-IsSound_example :
    let t = after reviewer none (proposed "pat1") project base version session in
    let v = made reviewer none (proposed "pat1") project base version session in
    IsUnique (version_blocks v.id "w1" t.work) × IsSound (version_blocks v.id "w1" t.work)
new_version-IsSound_example =
    new_version-IsSound reviewer "pat1" decision session (proposed "pat1") project base version
      decides made_is_new block_ids-IsFresh (refl, (tt, (tt, (tt, tt)))) version-IsUnique
      version-IsSound

accept_patch_again_example :
    let t = (accept_patch reviewer "pat1" decision session).1 in
    accept_patch reviewer "pat1" decision t ≡ (
      ok (
        record (proposed "pat1") { status = accepted },
        made reviewer none (proposed "pat1") project base version session,
      ),
      t,
    )
accept_patch_again_example =
    accept_patch_again reviewer "pat1" decision decision session (proposed "pat1") project base
      version decides

-- A patch against the version that the first acceptance made.
abbrev next_patch : Patch
next_patch = record (proposed "pat3") {
  base_content_version_id = "cv_t";
  operations = replacement "a" (text_payload "again") ∷ [];
}

abbrev two_patches : Session
two_patches = record session { work = record db { patches = proposed "pat1" ∷ next_patch ∷ [] } }

abbrev next_decision : DecisionIn
next_decision = record { reason = none; expected_current_version_id = "cv_t" }

abbrev made_first : ContentVersion
made_first = made reviewer none (proposed "pat1") project base version two_patches

next_decides :
    decide reviewer "pat3" next_decision
      (after reviewer none (proposed "pat1") project base version two_patches).work
    ≡ ok (
        fresh next_patch
          (record project { current_content_version_id = some made_first.id })
          made_first
          (number_blocks 0 (patched (proposed "pat1") version two_patches).0))
unfolding decide require get_patch validate_patch_operations content_blocks get_project
    version_blocks patch_findings raises_type_error validate_block_payload text_len write_acceptance
    audit outbox new_id apply_operations apply_operation number_blocks
next_decides = refl

only_current_base_example : next_patch.base_content_version_id ≡ made_first.id
only_current_base_example =
    only_current_base reviewer reviewer none (proposed "pat1") next_patch project
      (record project { current_content_version_id = some made_first.id }) base made_first version
      (number_blocks 0 (patched (proposed "pat1") version two_patches).0) two_patches "pat3"
      next_decision next_decides refl

abbrev stale_decision : DecisionIn
stale_decision = record { reason = none; expected_current_version_id = "v0" }

stale_raises :
    (accept_patch reviewer "pat1" stale_decision session).0 ≡ err (conflict_error project)
unfolding accept_patch perform decide require get_patch validate_patch_operations content_blocks
    get_project version_blocks patch_findings raises_type_error validate_block_payload text_len
stale_raises = refl

accept_patch_error_example :
    ((accept_patch reviewer "pat1" stale_decision session).1 ≡ session)
    ⊎ ((p : Patch) × (found : Project) × (decide reviewer "pat1" stale_decision db
          ≡ ok (stale p found))
        × (conflict_error project ≡ conflict_error found)
        × IsConflict session p (accept_patch reviewer "pat1" stale_decision session).1)
accept_patch_error_example =
    accept_patch_error reviewer "pat1" stale_decision session (conflict_error project) stale_raises
