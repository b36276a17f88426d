-- ===== src/Review/Accept/Outcomes.antt =====
-- `accept_patch` as a whole: the new version, its place in the history, what can be accepted after
-- it, and the answer to a repeated call.
use groundloom.Base.{
  ℕ, ◌+◌, ◌≤◌, ◌<◌, String, ◌≡◌, ◌≢◌, refl, Bool, true, Option, none, some, List, [], ◌∷◌, ◌++◌,
  arith, eq_iff, ◌==◌, ◌&&◌, find, keep, ap, ◌∙◌, sym, All, ltb, lt→ltb, if_true, subst, Bool-cases,
  inl, inr,
}
use mathlib.Core.Option.{some-injective}
use groundloom.Content.Operations.{Block, number_blocks}
use groundloom.Store.{
  Session, Project, ContentVersion, Patch, accepted, RuntimeContext, ok, audit, outbox,
  or_raise-eq-ok,
}
use groundloom.Review.Reads.{version_blocks, get_project, get_patch, content_blocks}
use groundloom.Review.Writes.{set_patch}
use groundloom.Review.Accept.{
  DecisionIn, fresh, decide, decide_status, perform, accept_patch, latest, accepted_version,
  max_version_no, patched, write_acceptance,
}
use groundloom.Review.Accept.Branches.{
  IsAcceptable-decide, project_found_by_id, get_project-id, content_blocks-current,
}
use groundloom.Review.Accept.Versions.{
  after, made, IsNewVersion, content_after, history_is_kept, found_is_pointed, after_is_committed,
}

-- What the session holds after an acceptance, and that it is committed.
pub record IsAccepted (ctx : RuntimeContext) (p : Patch) (project : Project)
    (base made : ContentVersion) (items : List Block) (s t : Session) : Type 0 where
  pub content : content_blocks ctx project.id none t.work ≡ ok (made, items)
  pub parent : made.parent_version_id ≡ some base.id
  pub newest :
      All
        (λ (v : ContentVersion). v.project_id ≡ project.id → v.version_no < made.version_no)
        s.work.versions
  pub history :
      (version workspace : String)
      → version ≢ made.id
      → version_blocks version workspace t.work ≡ version_blocks version workspace s.work
  pub durable : t.committed ≡ t.work

max_version_no-bounds :
    (id : String) (n : ℕ) (vs : List ContentVersion)
    → max_version_no id vs ≤ n
    → All (λ (v : ContentVersion). v.project_id ≡ id → v.version_no < n + 1) vs
max_version_no-bounds id n [] h = tt
max_version_no-bounds id n (v ∷ vs) h =
    (λ e. ground (arith, eq_iff v.project_id id), max_version_no-bounds id n vs (ground arith))

-- A patch that `decide` finds acceptable is returned as accepted beside its new version. The new
-- version is then the project's current content, with the blocks that the patch leaves numbered in
-- their order; its parent is the base, its number is above every version of the project, every other
-- version reads as before, and all of it is committed. No version and no block may have carried the
-- id that is drawn for the new version.
pub accept_patch_accepts :
    (ctx : RuntimeContext) (patch_id : String) (body : DecisionIn) (s : Session) (p : Patch)
    (project : Project) (base : ContentVersion) (blocks : List Block)
    → decide ctx patch_id body s.work ≡ ok (fresh p project base blocks)
    → IsNewVersion (made ctx body.reason p project base blocks s).id s.work
    → let v = made ctx body.reason p project base blocks s in
      let p' = record p { status = accepted; decision_reason = body.reason } in
      ((accept_patch ctx patch_id body s).0 ≡ ok (p', v))
      × IsAccepted ctx p project base v
          (number_blocks 0 (patched p blocks s).0)
          s
          (accept_patch ctx patch_id body s).1
unfolding accept_patch perform
accept_patch_accepts ctx patch_id body s p project base blocks h new = rw h (
  refl,
  record {
    content = content_after ctx body.reason p project base blocks s new (
        project_found_by_id (IsAcceptable-decide ctx patch_id body s.work p project base blocks h));
    parent = refl;
    newest = max_version_no-bounds project.id _ s.work.versions (omega arith);
    history = history_is_kept ctx body.reason p project base blocks s;
    durable = after_is_committed ctx body.reason p project base blocks s;
  },
)

-- The new pointer as any later query for the project finds it.
pointed_after :
    (ctx ctx' : RuntimeContext) (reason : Option String) (p : Patch) (project found : Project)
    (base : ContentVersion) (blocks : List Block) (s : Session)
    → get_project ctx' project.id (after ctx reason p project base blocks s).work ≡ ok found
    → found.current_content_version_id ≡ some (made ctx reason p project base blocks s).id
unfolding get_project write_acceptance audit outbox
pointed_after ctx ctx' reason p project found base blocks s h =
    found_is_pointed project.id _ ctx'.workspace_id s.work.projects (or_raise-eq-ok _ _ h)

-- No lost update: once a project has a new version, whoever asks, the only patches of the project
-- that can become a version are those that were proposed against the new one.
pub only_current_base :
    (ctx ctx' : RuntimeContext) (reason : Option String) (p q : Patch) (project found : Project)
    (base base' : ContentVersion) (blocks blocks' : List Block) (s : Session) (patch_id : String)
    (body : DecisionIn)
    → decide ctx' patch_id body (after ctx reason p project base blocks s).work
      ≡ ok (fresh q found base' blocks')
    → q.project_id ≡ project.id
    → q.base_content_version_id ≡ (made ctx reason p project base blocks s).id
only_current_base ctx ctx' reason p q project found base base' blocks blocks' s patch_id body h
      same =
    let a = IsAcceptable-decide ctx' patch_id body _ q found base' blocks' h in
    let points = pointed_after ctx ctx' reason p project found base blocks s (
      subst (λ i. get_project ctx' i (after ctx reason p project base blocks s).work ≡ ok found)
        same a.project_found) in
    some-injective _ _ (sym a.current ∙ points)

-- The newest version is the last one, if its number is above those of the others.
latest-last :
    (test : ContentVersion → Bool) (vs : List ContentVersion) (v : ContentVersion)
    → test v ≡ true
    → All (λ (w : ContentVersion). test w ≡ true → w.version_no < v.version_no) vs
    → latest (keep test (vs ++ v ∷ [])) ≡ some v
latest-last test [] v t h = rw t
latest-last test (x ∷ xs) v t h = elim (Bool-cases (test x)) [
  | inl e ↦
      rw (e, latest-last test xs v t h.1)
        (ap some (if_true (ltb x.version_no v.version_no) v x (lt→ltb _ _ (h.0 e))))
  | inr e ↦ rw e (latest-last test xs v t h.1)
]

All-weaken :
    (P Q : ContentVersion → Type 0) (vs : List ContentVersion)
    → ((v : ContentVersion) → P v → Q v)
    → All P vs
    → All Q vs
All-weaken P Q [] f h = tt
All-weaken P Q (v ∷ vs) f h = (f v h.0, All-weaken P Q vs f h.1)

pub find-set_patch :
    (id w : String) (p : Patch) (ps : List Patch) {q : Patch}
    → p.id ≡ id
    → p.workspace_id ≡ w
    → find (λ r. r.id == id && r.workspace_id == w) ps ≡ some q
    → find (λ r. r.id == id && r.workspace_id == w) (set_patch p ps) ≡ some p
find-set_patch id w p [] e f h = cc
find-set_patch id w p (r ∷ rs) {q} e f h = ground (
  arith,
  eq_iff r.id id,
  eq_iff r.id p.id,
  eq_iff p.id id,
  eq_iff p.workspace_id w,
  find-set_patch id w p rs {q = q} e f,
)

pub find_patch_fields :
    (id w : String) (ps : List Patch) {p : Patch}
    → find (λ r. r.id == id && r.workspace_id == w) ps ≡ some p
    → (p.id ≡ id) × (p.workspace_id ≡ w)
find_patch_fields id w [] h = cc
find_patch_fields id w (r ∷ rs) {p} h =
    ground (arith, eq_iff r.id id, eq_iff r.workspace_id w, find_patch_fields id w rs {p = p})

abbrev accepted_patch : Patch → Option String → Patch
accepted_patch p reason = record p { status = accepted; decision_reason = reason }

patch_after :
    (ctx : RuntimeContext) (reason : Option String) (p : Patch) (project : Project)
    (base : ContentVersion) (blocks : List Block) (s : Session) (patch_id : String)
    → get_patch ctx patch_id s.work ≡ ok p
    → get_patch ctx patch_id (after ctx reason p project base blocks s).work
      ≡ ok (accepted_patch p reason)
unfolding get_patch write_acceptance audit outbox
patch_after ctx reason p project base blocks s patch_id h =
    let found = or_raise-eq-ok _ _ h in
    let (same_id, same_workspace) =
      find_patch_fields patch_id ctx.workspace_id s.work.patches found in
    rw (
      find-set_patch patch_id ctx.workspace_id (accepted_patch p reason) s.work.patches same_id
        same_workspace found)

version_after :
    (ctx : RuntimeContext) (reason : Option String) (p : Patch) (project : Project)
    (base : ContentVersion) (blocks : List Block) (s : Session)
    → project.id ≡ p.project_id
    → base.id ≡ p.base_content_version_id
    → accepted_version (accepted_patch p reason) (after ctx reason p project base blocks s).work
      ≡ some (made ctx reason p project base blocks s)
unfolding accepted_version write_acceptance audit outbox
version_after ctx reason p project base blocks s same_project same_base =
    latest-last _ s.work.versions (made ctx reason p project base blocks s)
      (ground (arith, eq_iff base.id p.base_content_version_id, eq_iff project.id p.project_id))
      (All-weaken _ _ s.work.versions
        (λ v below t.
          below (ground (arith, eq_iff v.project_id p.project_id, eq_iff project.id p.project_id)))
        (max_version_no-bounds project.id _ s.work.versions (omega arith)))

-- A repeated call changes nothing: after an acceptance every further call for the same patch, by the
-- same reviewer and with any body, returns the accepted patch and the version that was made, and
-- leaves the session as it is.
pub accept_patch_again :
    (ctx : RuntimeContext) (patch_id : String) (body again : DecisionIn) (s : Session) (p : Patch)
    (project : Project) (base : ContentVersion) (blocks : List Block)
    → decide ctx patch_id body s.work ≡ ok (fresh p project base blocks)
    → let t = (accept_patch ctx patch_id body s).1 in
      accept_patch ctx patch_id again t
      ≡ (ok (accepted_patch p body.reason, made ctx body.reason p project base blocks s), t)
unfolding accept_patch perform decide decide_status
accept_patch_again ctx patch_id body again s p project base blocks h =
    let a = IsAcceptable-decide ctx patch_id body s.work p project base blocks h in
    let (same_base, _) =
      content_blocks-current ctx project.id p.base_content_version_id s.work project base blocks
        (project_found_by_id a) a.current a.content in
    let same_project = get_project-id ctx p.project_id s.work a.project_found in
    rw (
      h,
      a.allowed,
      patch_after ctx body.reason p project base blocks s patch_id a.patch_found,
      version_after ctx body.reason p project base blocks s same_project same_base,
    )
