-- ===== src/Review/Create/Repeats.antt =====
-- The patch that `create_patch` makes, and the answer to a call that repeats its key.
use groundloom.Base.{
  ◌+◌, String, ◌≡◌, refl, false, Option, none, some, [], inl, inr, eq_refl, ◌==◌, ◌&&◌, find,
  find-last, ap, subst, sym, Bool-cases, if◌then◌else◌,
}
use groundloom.Json.{Fields, str, field, end}
use groundloom.Store.{
  Db, Session, Patch, Validation, RuntimeContext, Result, ok, audit, commit, remember_idempotency,
  add_idempotency, new_id, require,
}
use groundloom.Review.Accept.Conflicts.{SameContent}
use groundloom.Review.Create.{
  PatchCreate, created, create_roles, existing_record, named_patch, decide_creation, create_for,
  replay, new_patch, add_patch, perform_creation, create_patch,
}
use groundloom.Review.Create.Proposals.{IsProposable-decide_creation}

-- The session with the key recorded, if there is one.
abbrev pub recorded : RuntimeContext → Option String → String → Fields → Session → Session
recorded ctx none op r s = s
recorded ctx (some k) op r s = if k == "" then s else add_idempotency ctx k op r s

-- The rows that recording a key leaves alone.
pub record KeepsRows (s t : Session) : Type 0 where
  pub content : SameContent t.work s.work
  pub patches : t.work.patches ≡ s.work.patches

KeepsRows-refl : (s : Session) → KeepsRows s s
KeepsRows-refl s = record {
  content = record { projects = refl; configs = refl; versions = refl; blocks = refl };
  patches = refl;
}

pub recorded-KeepsRows :
    (ctx : RuntimeContext) (key : Option String) (op : String) (r : Fields) (s : Session)
    → KeepsRows s (recorded ctx key op r s)
recorded-KeepsRows ctx none op r s = KeepsRows-refl s
recorded-KeepsRows ctx (some k) op r s = elim (Bool-cases (k == "")) [
  | inl e ↦ rw e (KeepsRows-refl s)
  | inr e ↦ rw e (record {
    content = record { projects = refl; configs = refl; versions = refl; blocks = refl };
    patches = refl;
  })
]

remember_first :
    (ctx : RuntimeContext) (key : Option String) (op : String) (r : Fields) (s : Session)
    → existing_record ctx key s.work ≡ none
    → remember_idempotency ctx key op r s ≡ (ok r, recorded ctx key op r s)
unfolding remember_idempotency
remember_first ctx none op r s h = refl
remember_first ctx (some k) op r s h = elim (Bool-cases (k == "")) [
  | inl e ↦ rw e
  | inr e ↦ rw (e, (let first = rw e at h in first))
]

existing_record-add_patch :
    (ctx : RuntimeContext) (key : Option String) (p : Patch) (s : Session)
    → existing_record ctx key s.work ≡ none
    → existing_record ctx key (add_patch p s).work ≡ none
existing_record-add_patch ctx none p s h = h
existing_record-add_patch ctx (some k) p s h = h

-- No patch has the id.
abbrev pub IsNewPatch : String → Db → Type 0
IsNewPatch id d =
    (w p : String)
    → find (λ (q : Patch). q.id == id && (q.workspace_id == w && q.project_id == p)) d.patches
      ≡ none

module _ (ctx : RuntimeContext) (project_id : String) (body : PatchCreate) (s : Session)
    (v : Validation) where
  abbrev pub proposed : Patch
  proposed = new_patch ctx project_id body v s

  abbrev pub session_after : Session
  session_after = commit (
      audit ctx "patch.proposed" "patch" (some proposed.id)
        "Created a validated non-canonical patch" "success"
        (recorded ctx body.idempotency_key "patch.create" (field "patch_id" (str proposed.id) end)
          (add_patch proposed s)))

  -- The session that a call which goes on to make a patch leaves.
  pub create_patch_creates :
      decide_creation ctx project_id body s.work ≡ ok (created v)
      → (create_patch ctx project_id body s ≡ (ok proposed, session_after)) × (v.findings ≡ [])
  unfolding create_patch perform_creation
  create_patch_creates h =
      let q = IsProposable-decide_creation ctx project_id body s.work v h in
      (
        rw (
          h,
          remember_first ctx body.idempotency_key "patch.create"
              (field "patch_id" (str proposed.id) end) (add_patch proposed s)
              (existing_record-add_patch ctx body.idempotency_key proposed s q.first_call),
        ),
        q.clean,
      )

  module _ (k : String) (keyed : body.idempotency_key ≡ some k) (k_named : (k == "") ≡ false) where
    record_after :
        existing_record ctx (some k) s.work ≡ none
        → existing_record ctx (some k) session_after.work
          ≡ some (record {
            id = new_id "idem" (s.uuid4 (s.drawn + 1));
            workspace_id = ctx.workspace_id;
            key = k;
            operation = "patch.create";
            response = field "patch_id" (str proposed.id) end;
          })
    unfolding audit
    record_after first =
        rw (keyed, k_named)
          (find-last _ s.work.idempotency _ (rw k_named at first)
            (rw (eq_refl ctx.workspace_id, eq_refl k)))

    patch_after :
        IsNewPatch proposed.id s.work
        → named_patch ctx project_id (some proposed.id) session_after.work ≡ some proposed
    unfolding audit
    patch_after new =
        rw (keyed, k_named)
          (find-last _ s.work.patches proposed (new ctx.workspace_id project_id)
            (rw (eq_refl proposed.id, eq_refl ctx.workspace_id, eq_refl project_id)))

    replayed :
        (again : PatchCreate)
        → require ctx create_roles ≡ ok tt
        → again.idempotency_key ≡ some k
        → existing_record ctx (some k) s.work ≡ none
        → IsNewPatch proposed.id s.work
        → create_patch ctx project_id again session_after ≡ (ok proposed, session_after)
    unfolding create_patch perform_creation decide_creation create_for replay
    replayed again allowed same first new = rw (allowed, same, record_after first, patch_after new)

    -- A repeated key proposes nothing twice: after the call that made a patch, every further call
    -- by the same caller for the same project with the same key, whatever else it proposes, returns
    -- that patch and leaves the session as it is, if no other patch has the id that was drawn.
    pub create_patch_again :
        (again : PatchCreate)
        → decide_creation ctx project_id body s.work ≡ ok (created v)
        → IsNewPatch proposed.id s.work
        → again.idempotency_key ≡ some k
        → let t = (create_patch ctx project_id body s).1 in
          create_patch ctx project_id again t ≡ (ok proposed, t)
    create_patch_again again h new same =
        let q = IsProposable-decide_creation ctx project_id body s.work v h in
        let first = subst (λ o. existing_record ctx o s.work ≡ none) keyed q.first_call in
        let made = ap (λ (r : Result Patch × Session). r.1) (create_patch_creates h).0 in
        subst (λ t. create_patch ctx project_id again t ≡ (ok proposed, t)) (sym made)
          (replayed again q.allowed same first new)
