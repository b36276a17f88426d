-- ===== src/Skills/History.antt =====
-- Calls of the skill service as steps, and what they do to the list of versions.
use groundloom.Base.{
  String, List, [], ◌∷◌, ◌++◌, ◌==◌, ◌≡◌, refl, inl, inr, map, Bool-cases, append_nil, append_assoc,
  sym, ◌∙◌, ap,
}
use groundloom.Store.{RuntimeContext, Result, ok, err}
use groundloom.Skills.Rows.{
  Skill, SkillStatus, draft, published, SkillVersion, SkillSession, SkillCreate, SkillForkCreate,
  SkillDraftRepair,
}
use groundloom.Skills.Drafts.{
  first_version, decide_create, perform_create, create_skill, decide_fork, create_forked,
  fork_skill, decide_repair, repaired, perform_repair, repair_skill_draft,
}
use groundloom.Skills.Lifecycle.{
  get_version, set_status, verdict, perform_validation, validate_skill, decide_publish,
  perform_publish, publish_skill,
}

-- One call of the service, by any caller.
pub data Step (sha256 : String → String) : SkillSession → SkillSession → Type 0 where
  creates :
      (ctx : RuntimeContext) (body : SkillCreate) (s : SkillSession)
      → Step sha256 s (create_skill sha256 ctx body s).1
  forks :
      (ctx : RuntimeContext) (id : String) (body : SkillForkCreate) (s : SkillSession)
      → Step sha256 s (fork_skill sha256 ctx id body s).1
  repairs :
      (ctx : RuntimeContext) (id : String) (body : SkillDraftRepair) (s : SkillSession)
      → Step sha256 s (repair_skill_draft sha256 ctx id body s).1
  validates :
      (ctx : RuntimeContext) (id : String) (s : SkillSession)
      → Step sha256 s (validate_skill ctx id s).1
  publishes :
      (ctx : RuntimeContext) (id : String) (s : SkillSession)
      → Step sha256 s (publish_skill ctx id s).1

pub data Reach (sha256 : String → String) (s : SkillSession) : SkillSession → Type 0 where
  here : Reach sha256 s s
  next : {t u : SkillSession} → Reach sha256 s t → Step sha256 t u → Reach sha256 s u

-- A version less its status.
abbrev pub bytes_of : SkillVersion → SkillVersion
bytes_of v = record v { status = draft }

-- The versions of the first list come first in the second, with no more than their status changed.
abbrev pub Extends : List SkillVersion → List SkillVersion → Type 0
Extends vs ws = (added : List SkillVersion) × (map bytes_of ws ≡ map bytes_of vs ++ added)

Extends-refl : (vs : List SkillVersion) → Extends vs vs
Extends-refl vs = ([], sym (append_nil (map bytes_of vs)))

Extends-trans : (vs ws us : List SkillVersion) → Extends vs ws → Extends ws us → Extends vs us
Extends-trans vs ws us (a, e) (b, f) =
    (a ++ b, f ∙ ap (λ l. l ++ b) e ∙ append_assoc (map bytes_of vs) a b)

map-add :
    (vs : List SkillVersion) (v : SkillVersion)
    → map bytes_of (vs ++ v ∷ []) ≡ map bytes_of vs ++ bytes_of v ∷ []
map-add [] v = refl
map-add (w ∷ ws) v = ap (λ l. bytes_of w ∷ l) (map-add ws v)

Extends-add : (vs : List SkillVersion) (v : SkillVersion) → Extends vs (vs ++ v ∷ [])
Extends-add vs v = (bytes_of v ∷ [], map-add vs v)

map-set_status :
    (id : String) (status : SkillStatus) (vs : List SkillVersion)
    → map bytes_of (set_status id status vs) ≡ map bytes_of vs
map-set_status id status [] = refl
map-set_status id status (v ∷ vs) = elim (Bool-cases (v.id == id)) [
  | inl e ↦ rw e (ap (λ l. bytes_of v ∷ l) (map-set_status id status vs))
  | inr e ↦ rw e (ap (λ l. bytes_of v ∷ l) (map-set_status id status vs))
]

Extends-set_status :
    (id : String) (status : SkillStatus) (vs : List SkillVersion)
    → Extends vs (set_status id status vs)
Extends-set_status id status vs =
    let same = Extends-refl vs in (same.0, map-set_status id status vs ∙ same.1)

validation-Extends :
    (ctx : RuntimeContext) (r : Result SkillVersion) (s : SkillSession)
    → Extends s.work.versions (perform_validation ctx r s).1.work.versions
validation-Extends ctx (err e) s = Extends-refl s.work.versions
validation-Extends ctx (ok v) s = Extends-set_status v.id (verdict v) s.work.versions

publish-Extends :
    (ctx : RuntimeContext) (r : Result SkillVersion) (s : SkillSession)
    → Extends s.work.versions (perform_publish ctx r s).1.work.versions
publish-Extends ctx (err e) s = Extends-refl s.work.versions
publish-Extends ctx (ok v) s = Extends-set_status v.id published s.work.versions

module _ (sha256 : String → String) where
  perform_create-Extends :
      (ctx : RuntimeContext) (body : SkillCreate) (r : Result (Unit {0})) (s : SkillSession)
      → Extends s.work.versions (perform_create sha256 ctx body r s).1.work.versions
  perform_create-Extends ctx body (err e) s = Extends-refl s.work.versions
  perform_create-Extends ctx body (ok _) s =
      Extends-add s.work.versions (first_version sha256 ctx body s)

  create_forked-Extends :
      (ctx : RuntimeContext) (r : Result SkillCreate) (s : SkillSession)
      → Extends s.work.versions (create_forked sha256 ctx r s).1.work.versions
  unfolding create_skill
  create_forked-Extends ctx (err e) s = Extends-refl s.work.versions
  create_forked-Extends ctx (ok body) s =
      perform_create-Extends ctx body (decide_create sha256 ctx body s.work) s

  perform_repair-Extends :
      (ctx : RuntimeContext) (body : SkillDraftRepair) (r : Result (SkillVersion × Skill))
      (s : SkillSession)
      → Extends s.work.versions (perform_repair sha256 ctx body r s).1.work.versions
  perform_repair-Extends ctx body (err e) s = Extends-refl s.work.versions
  perform_repair-Extends ctx body (ok (previous, skill)) s =
      Extends-add s.work.versions (repaired sha256 ctx body previous skill s)

  Step-Extends : {s t : SkillSession} → Step sha256 s t → Extends s.work.versions t.work.versions
  unfolding create_skill fork_skill repair_skill_draft validate_skill publish_skill
  Step-Extends (creates ctx body s) =
      perform_create-Extends ctx body (decide_create sha256 ctx body s.work) s
  Step-Extends (forks ctx id body s) =
      create_forked-Extends ctx (decide_fork sha256 ctx id body s.work) s
  Step-Extends (repairs ctx id body s) =
      perform_repair-Extends ctx body (decide_repair sha256 ctx id body s.work) s
  Step-Extends (validates ctx id s) = validation-Extends ctx (get_version ctx id s.work) s
  Step-Extends (publishes ctx id s) = publish-Extends ctx (decide_publish ctx id s.work) s

-- The history of skills is append-only: after any calls by any callers, the versions that were there
-- come first, in their order, with the same package, hash, number and owner, and at most another
-- status; what was added comes after them.
pub Reach-Extends :
    (sha256 : String → String) (s t : SkillSession)
    → Reach sha256 s t
    → Extends s.work.versions t.work.versions
Reach-Extends sha256 s t here = Extends-refl s.work.versions
Reach-Extends sha256 s t (next r step) =
    Extends-trans s.work.versions _ t.work.versions (Reach-Extends sha256 s _ r)
      (Step-Extends sha256 step)
