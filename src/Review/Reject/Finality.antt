-- ===== src/Review/Reject/Finality.antt =====
-- A rejection: what it leaves, and that it is final.
use groundloom.Base.{
  String, ◌≡◌, refl, Option, ◌⊎◌, inl, inr, subst, sym, find, ap, ◌∙◌, ◌==◌, ◌&&◌,
}
use groundloom.Store.{
  Db, Session, Patch, PatchStatus, presented, rejected, superseded, RuntimeContext, Result, ok, err,
  Raised, require, >>=-eq-ok, or_raise-eq-ok, audit, outbox, or_raise, error, resource_not_found,
  invalid_state,
}
use groundloom.Review.Reads.{get_patch}
use groundloom.Review.Accept.{DecisionIn, accept_roles, decide, perform, accept_patch}
use groundloom.Review.Accept.Conflicts.{SameContent}
use groundloom.Review.Accept.Outcomes.{find-set_patch, find_patch_fields}
use groundloom.Review.Reject.{
  Rejection, unchanged, rejects, reject_status, decide_rejection, write_rejection,
  perform_rejection, reject_patch,
}

-- The patch's decision is final.
abbrev pub IsClosed : PatchStatus → Type 0
IsClosed s = (s ≡ rejected) ⊎ (s ≡ superseded)

-- The patch that a decision to reject speaks of, and its status.
abbrev Speaks : Rejection → Patch → Type 0
Speaks (unchanged p) q = (p ≡ q) × IsClosed q.status
Speaks (rejects p) q = (p ≡ q) × (q.status ≡ presented)

reject_status-Speaks :
    (t : PatchStatus) (q : Patch) (r : Rejection)
    → q.status ≡ t
    → reject_status t q ≡ ok r
    → Speaks r q
unfolding reject_status
reject_status-Speaks rejected q (unchanged p) e h = (cc, inl e)
reject_status-Speaks superseded q (unchanged p) e h = (cc, inr e)
reject_status-Speaks presented q (unchanged p) e h = cc
reject_status-Speaks rejected q (rejects p) e h = cc
reject_status-Speaks superseded q (rejects p) e h = cc
reject_status-Speaks presented q (rejects p) e h = (cc, e)
reject_status-Speaks _ q r e h = cc

decide_rejection-Speaks :
    (ctx : RuntimeContext) (patch_id : String) (d : Db) (r : Rejection)
    → decide_rejection ctx patch_id d ≡ ok r
    → (q : Patch) × (get_patch ctx patch_id d ≡ ok q) × Speaks r q
unfolding decide_rejection
decide_rejection-Speaks ctx patch_id d r h =
    let (_, _, h₁) = >>=-eq-ok (require ctx _) _ h in
    let (q, found, h₂) = >>=-eq-ok (get_patch ctx patch_id d) _ h₁ in
    (q, found, reject_status-Speaks q.status q r refl h₂)

patch_after :
    (ctx : RuntimeContext) (patch_id : String) (p : Patch) (reason : Option String) (s : Session)
    → get_patch ctx patch_id s.work ≡ ok p
    → get_patch ctx patch_id
        (write_rejection ctx (record p { status = rejected; decision_reason = reason }) s).work
      ≡ ok (record p { status = rejected; decision_reason = reason })
unfolding get_patch write_rejection audit outbox
patch_after ctx patch_id p reason s h =
    let found = or_raise-eq-ok _ _ h in
    let (same_id, same_workspace) =
      find_patch_fields patch_id ctx.workspace_id s.work.patches found in
    rw (
      find-set_patch patch_id ctx.workspace_id
        (record p { status = rejected; decision_reason = reason }) s.work.patches same_id
        same_workspace found)

-- After a call of `reject_patch` that returns: the patch is closed, nothing was written to canonical
-- content, and what was written is committed.
pub record IsRejected (ctx : RuntimeContext) (patch_id : String) (p : Patch) (s t : Session)
    : Type 0 where
  pub found : get_patch ctx patch_id t.work ≡ ok p
  pub closed : IsClosed p.status
  pub content : SameContent t.work s.work
  pub durable : (t ≡ s) ⊎ (t.committed ≡ t.work)

write_rejection-SameContent :
    (ctx : RuntimeContext) (p : Patch) (s : Session)
    → SameContent (write_rejection ctx p s).work s.work
unfolding write_rejection audit outbox
write_rejection-SameContent ctx p s = record {
  projects = refl;
  configs = refl;
  versions = refl;
  blocks = refl;
}

write_rejection-durable :
    (ctx : RuntimeContext) (p : Patch) (s : Session)
    → (write_rejection ctx p s).committed ≡ (write_rejection ctx p s).work
unfolding write_rejection
write_rejection-durable ctx p s = refl

perform_rejection-IsRejected :
    (ctx : RuntimeContext) (patch_id : String) (reason : Option String) (r : Rejection)
    (q p : Patch) (s : Session)
    → get_patch ctx patch_id s.work ≡ ok q
    → Speaks r q
    → (perform_rejection ctx reason (ok r) s).0 ≡ ok p
    → IsRejected ctx patch_id p s (perform_rejection ctx reason (ok r) s).1
unfolding perform_rejection
perform_rejection-IsRejected ctx patch_id reason (unchanged x) q p s found (same, closed) h =
    let e : q ≡ p = sym same ∙ (cc h) in
    record {
      found = found ∙ ap ok e;
      closed = subst (λ (z : Patch). IsClosed z.status) e closed;
      content = record { projects = refl; configs = refl; versions = refl; blocks = refl };
      durable = inl refl;
    }
perform_rejection-IsRejected ctx patch_id reason (rejects x) q p s found (same, was) h =
    let f : get_patch ctx patch_id s.work ≡ ok x = found ∙ ap ok (sym same) in
    let e : record x { status = rejected; decision_reason = reason } ≡ p = cc h in
    record {
      found = patch_after ctx patch_id x reason s f ∙ ap ok e;
      closed = subst (λ (z : Patch). IsClosed z.status) e (inl refl);
      content = write_rejection-SameContent ctx _ s;
      durable = inr (write_rejection-durable ctx _ s);
    }

-- A returned rejection closes the patch: it is found as rejected or superseded, the versions, their
-- blocks, the projects and the configurations are as before, and either nothing was written or all
-- of it is committed.
pub reject_patch-IsRejected :
    (ctx : RuntimeContext) (patch_id : String) (reason : Option String) (s : Session) (p : Patch)
    → (reject_patch ctx patch_id reason s).0 ≡ ok p
    → IsRejected ctx patch_id p s (reject_patch ctx patch_id reason s).1
unfolding reject_patch
reject_patch-IsRejected ctx patch_id reason s p h =
    decided (decide_rejection ctx patch_id s.work) refl h
  where
    decided :
        (r : Result Rejection)
        → decide_rejection ctx patch_id s.work ≡ r
        → (perform_rejection ctx reason r s).0 ≡ ok p
        → IsRejected ctx patch_id p s (perform_rejection ctx reason r s).1
    decided (ok r) e k =
        let (q, found, speaks) = decide_rejection-Speaks ctx patch_id s.work r e in
        perform_rejection-IsRejected ctx patch_id reason r q p s found speaks k
    decided (err x) e k = cc

get_patch-workspace :
    (ctx ctx' : RuntimeContext) (id : String) (d : Db)
    → ctx'.workspace_id ≡ ctx.workspace_id
    → get_patch ctx' id d ≡ get_patch ctx id d
unfolding get_patch
get_patch-workspace ctx ctx' id d same =
    ap
      (λ (w : String).
        or_raise (find (λ p. p.id == id && p.workspace_id == w) d.patches)
          (error resource_not_found 404))
      same

closed_is_refused :
    (ctx : RuntimeContext) (patch_id : String) (body : DecisionIn) (s : Session) (p : Patch)
    → get_patch ctx patch_id s.work ≡ ok p
    → IsClosed p.status
    → (e : Raised) × (accept_patch ctx patch_id body s ≡ (err e, s))
unfolding accept_patch perform decide
closed_is_refused ctx patch_id body s p found closed = refused (require ctx accept_roles) refl
  where
    refused :
        (r : Result (Unit {0}))
        → require ctx accept_roles ≡ r
        → (e : Raised) × (accept_patch ctx patch_id body s ≡ (err e, s))
    refused (err e) allowed = (e, rw allowed)
    refused (ok _) allowed = elim closed [
      | inl c ↦ (error invalid_state 409, rw (allowed, found, c))
      | inr c ↦ (error invalid_state 409, rw (allowed, found, c))
    ]

-- A rejection is final: after a call of `reject_patch` that returned, every call of `accept_patch`
-- for that patch in the workspace, by whomever and with any body, raises and changes nothing.
pub rejected_is_final :
    (ctx ctx' : RuntimeContext) (patch_id : String) (reason : Option String) (body : DecisionIn)
    (s : Session) (p : Patch)
    → (reject_patch ctx patch_id reason s).0 ≡ ok p
    → ctx'.workspace_id ≡ ctx.workspace_id
    → let t = (reject_patch ctx patch_id reason s).1 in
      (e : Raised) × (accept_patch ctx' patch_id body t ≡ (err e, t))
rejected_is_final ctx ctx' patch_id reason body s p h same =
    let t = (reject_patch ctx patch_id reason s).1 in
    let r = reject_patch-IsRejected ctx patch_id reason s p h in
    closed_is_refused ctx' patch_id body t p
      (get_patch-workspace ctx ctx' patch_id t.work same ∙ r.found) r.closed
