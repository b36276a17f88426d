-- ===== src/Review/ProposalTests.antt =====
-- Proposals and rejections on the small database, and their theorems at concrete inputs.
use groundloom.Base.{◌≡◌, ◌==◌, ◌&&◌, false, none, find, text_len, refl, some, [], ◌∷◌}
use groundloom.Content.BlockTypes.{validate_block_payload}
use groundloom.Content.Operations.Findings.{patch_findings, raises_type_error}
use groundloom.Content.Operations.Gaps.{replacement}
use groundloom.Content.Samples.{typed_payload, version}
use groundloom.Store.{Patch, accepted, rejected, Validation, ok, err, Raised, require, new_id}
use groundloom.Review.Reads.{
  validate_patch_operations, content_blocks, get_project, get_patch, version_blocks, pinned_sources,
}
use groundloom.Review.Accept.{accept_patch}
use groundloom.Review.Create.{PatchCreate, created, decide_creation, create_patch}
use groundloom.Review.Create.Guards.{IsGuarded, create_patch-IsGuarded}
use groundloom.Review.Create.Presented.{presented_patch}
use groundloom.Review.Accept.Versions.{made}
use groundloom.Review.Accept.Proposed.{IsInOrder, create_patch-accept_patch}
use groundloom.Review.Create.Repeats.{proposed as proposal_made, IsNewPatch, create_patch_again}
use groundloom.Review.Reject.{decide_rejection, reject_patch}
use groundloom.Review.Reject.Finality.{IsRejected, reject_patch-IsRejected, rejected_is_final}
use groundloom.Review.Samples.{reviewer, proposed, db, session, decision, project, base}

abbrev proposal : PatchCreate
proposal = record {
  proposal = record {
    base_content_version_id = "v1";
    operations = replacement "b" (typed_payload "warning" "careful") ∷ [];
    summary = "a warning";
  };
  idempotency_key = some "k1";
}

abbrev clean : Validation
clean = record { findings = []; base_version_id = "v1" }

creates : decide_creation reviewer "p1" proposal db ≡ ok (created clean)
unfolding decide_creation require validate_patch_operations content_blocks get_project
    version_blocks patch_findings raises_type_error validate_block_payload
creates = refl

proposal_is_new : IsNewPatch (proposal_made reviewer "p1" proposal session clean).id db
unfolding new_id
proposal_is_new w p = refl

create_patch-IsGuarded_example :
    IsGuarded reviewer "p1" proposal session (create_patch reviewer "p1" proposal session)
create_patch-IsGuarded_example = create_patch-IsGuarded reviewer "p1" proposal session

project_there : get_project reviewer "p1" db ≡ ok project
unfolding get_project
project_there = refl

base_there : content_blocks reviewer "p1" (some "v1") db ≡ ok (base, version)
unfolding content_blocks get_project version_blocks
base_there = refl

finds_nothing : patch_findings version (pinned_sources project db) proposal.operations ≡ []
unfolding patch_findings validate_block_payload
finds_nothing = refl

has_types : raises_type_error proposal.operations ≡ false
unfolding raises_type_error
has_types = refl

new_name :
    find
      (λ (q : Patch). q.id == new_id "pat" (session.uuid4 session.drawn) && q.workspace_id == "w1")
      db.patches
    ≡ none
unfolding new_id
new_name = refl

in_order : IsInOrder reviewer reviewer "p1" proposal decision db project base version
unfolding text_len
in_order = record {
  may_propose = refl;
  may_accept = refl;
  one_workspace = refl;
  first_call = refl;
  project_found = project_there;
  base_found = base_there;
  bounds = refl;
  typed = has_types;
  clean = finds_nothing;
  current = refl;
  expected = refl;
}

create_patch-accept_patch_example :
    let p =
      presented_patch reviewer "p1" proposal base (new_id "pat" (session.uuid4 session.drawn)) in
    let (r, t) = create_patch reviewer "p1" proposal session in
    (r ≡ ok p)
    × (get_patch reviewer p.id t.committed ≡ ok p)
    × ((accept_patch reviewer p.id decision t).0
        ≡ ok (
          record p { status = accepted; decision_reason = decision.reason },
          made reviewer decision.reason p project base version t,
        ))
create_patch-accept_patch_example =
    create_patch-accept_patch reviewer reviewer "p1" proposal decision session project base version
      in_order new_name

-- The repeated call proposes something else under the same key.
abbrev repeat : PatchCreate
repeat = record {
  proposal = record { base_content_version_id = "v9"; operations = []; summary = "other" };
  idempotency_key = some "k1";
}

create_patch_again_example :
    let t = (create_patch reviewer "p1" proposal session).1 in
    create_patch reviewer "p1" repeat t
    ≡ (ok (proposal_made reviewer "p1" proposal session clean), t)
create_patch_again_example =
    create_patch_again reviewer "p1" proposal session clean "k1" refl refl repeat creates
      proposal_is_new refl

abbrev turned_down : Patch
turned_down = record (proposed "pat1") { status = rejected; decision_reason = some "no" }

rejects_first : (reject_patch reviewer "pat1" (some "no") session).0 ≡ ok turned_down
unfolding reject_patch decide_rejection require get_patch
rejects_first = refl

reject_patch-IsRejected_example :
    IsRejected reviewer "pat1" turned_down session
      (reject_patch reviewer "pat1" (some "no") session).1
reject_patch-IsRejected_example =
    reject_patch-IsRejected reviewer "pat1" (some "no") session turned_down rejects_first

rejected_is_final_example :
    let t = (reject_patch reviewer "pat1" (some "no") session).1 in
    (e : Raised) × (accept_patch reviewer "pat1" decision t ≡ (err e, t))
rejected_is_final_example =
    rejected_is_final reviewer reviewer "pat1" (some "no") decision session turned_down
      rejects_first refl
