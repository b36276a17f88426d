-- ===== src/Skills/Vetting.antt =====
-- What the status of a skill version says of its package.
use groundloom.Base.{
  find-All, String, Bool, true, false, some, [], ◌∷◌, ◌==◌, ◌&&◌, ◌≡◌, refl, inl, inr, find, not,
  All, All-append, Bool-cases, if◌then◌else◌, sym, ◌∙◌, ap, subst,
}
use groundloom.Store.{
  RuntimeContext, Result, ok, err, >>=-eq-ok, raise_if-eq-ok, or_raise-eq-ok, error,
  resource_not_found, invalid_state, require,
}
use groundloom.Skills.Rows.{
  Skill, SkillStatus, draft, valid, invalid, approval_pending, published, SkillVersion, SkillTables,
  SkillSession, belongs, SkillCreate, SkillDraftRepair,
}
use groundloom.Skills.Drafts.{
  first_version, decide_create, perform_create, create_skill, decide_fork, create_forked,
  fork_skill, decide_repair, repaired, perform_repair, repair_skill_draft,
}
use groundloom.Skills.Lifecycle.{
  get_version, is_valid_package, verdict, perform_validation, validate_skill, is_publishable,
  decide_publish, perform_publish, publish_skill, publish_roles,
}
use groundloom.Skills.Keys.{has_version_id, IsKeyed, set_status-All, find-set_status}
use groundloom.Skills.History.{Step, creates, forks, repairs, validates, publishes}

-- A version that is valid, waits for approval or is published has a package that passes the checks.
abbrev pub is_vetted_as : SkillStatus → SkillVersion → Bool
is_vetted_as draft v = true
is_vetted_as invalid v = true
is_vetted_as _ v = is_valid_package v

abbrev pub IsVetted : SkillVersion → Type 0
IsVetted v = is_vetted_as v.status v ≡ true

-- The checks do not read the status.
is_valid_package-status :
    (v : SkillVersion) (status : SkillStatus)
    → is_valid_package (record v { status = status }) ≡ is_valid_package v
unfolding is_valid_package
is_valid_package-status v status = refl

verdict-IsVetted : (v : SkillVersion) → IsVetted (record v { status = verdict v })
verdict-IsVetted v = elim (Bool-cases (is_valid_package v)) [
  | inl e ↦ rw e (is_valid_package-status v valid ∙ e)
  | inr e ↦ rw e refl
]

true_of_test : (b : Bool) → not b ≡ false → b ≡ true
true_of_test true h = refl
true_of_test false h = cc

ok-injective : {x y : SkillVersion} → ok x ≡ ok y → x ≡ y
ok-injective h = cc h

passes :
    (status : SkillStatus) (v : SkillVersion)
    → is_publishable status ≡ true
    → is_vetted_as status v ≡ true
    → is_valid_package v ≡ true
passes valid v h k = k
passes approval_pending v h k = k
passes draft v h k = cc
passes invalid v h k = cc
passes published v h k = k

abbrev is_own : RuntimeContext → String → SkillVersion → Bool
is_own ctx id v = v.id == id && belongs v.workspace_id ctx.workspace_id

get_version-found :
    (ctx : RuntimeContext) (id : String) (d : SkillTables) {v : SkillVersion}
    → get_version ctx id d ≡ ok v
    → find (is_own ctx id) d.versions ≡ some v
unfolding get_version
get_version-found ctx id d h =
    or_raise-eq-ok (find (is_own ctx id) d.versions) (error resource_not_found 404) h

after_validation :
    (ctx : RuntimeContext) (id : String) (s : SkillSession) (r : Result SkillVersion)
    → get_version ctx id s.work ≡ r
    → IsKeyed s.work.versions
    → All IsVetted s.work.versions
    → All IsVetted (perform_validation ctx r s).1.work.versions
after_validation ctx id s (err e) h keyed k = k
after_validation ctx id s (ok v) h keyed k =
    set_status-All IsVetted (verdict v) (is_own ctx id) s.work.versions v keyed
      (get_version-found ctx id s.work h) (verdict-IsVetted v) k

-- What `decide_publish` has checked.
decide_publish-found :
    (ctx : RuntimeContext) (id : String) (d : SkillTables) {v : SkillVersion}
    → decide_publish ctx id d ≡ ok v
    → (find (is_own ctx id) d.versions ≡ some v) × (is_publishable v.status ≡ true)
unfolding decide_publish
decide_publish-found ctx id d {v = v} h =
    let found = >>=-eq-ok (get_version ctx id d) _ h in
    let checked =
      raise_if-eq-ok (not (is_publishable found.0.status)) (error invalid_state 409) _ found.2 in
    let allowed = >>=-eq-ok (require ctx publish_roles) _ checked.1 in
    let same : found.0 ≡ v = ok-injective allowed.2 in
    (
      get_version-found ctx id d (found.1 ∙ ap ok same),
      subst (λ u. is_publishable u.status ≡ true) same
          (true_of_test (is_publishable found.0.status) checked.0),
    )

publishable-passes :
    (v : SkillVersion)
    → is_publishable v.status ≡ true
    → IsVetted v
    → IsVetted (record v { status = published })
publishable-passes v h k = is_valid_package-status v published ∙ passes v.status v h k

after_publish :
    (ctx : RuntimeContext) (id : String) (s : SkillSession) (r : Result SkillVersion)
    → decide_publish ctx id s.work ≡ r
    → IsKeyed s.work.versions
    → All IsVetted s.work.versions
    → All IsVetted (perform_publish ctx r s).1.work.versions
after_publish ctx id s (err e) h keyed k = k
after_publish ctx id s (ok v) h keyed k =
    let found = decide_publish-found ctx id s.work h in
    set_status-All IsVetted published (is_own ctx id) s.work.versions v keyed found.0
      (publishable-passes v found.1 (find-All IsVetted (is_own ctx id) s.work.versions v found.0 k))
      k

module _ (sha256 : String → String) where
  after_create :
      (ctx : RuntimeContext) (body : SkillCreate) (r : Result (Unit {0})) (s : SkillSession)
      → All IsVetted s.work.versions
      → All IsVetted (perform_create sha256 ctx body r s).1.work.versions
  after_create ctx body (err e) s k = k
  after_create ctx body (ok _) s k =
      All-append IsVetted s.work.versions (first_version sha256 ctx body s ∷ []) k (refl, tt)

  after_fork :
      (ctx : RuntimeContext) (r : Result SkillCreate) (s : SkillSession)
      → All IsVetted s.work.versions
      → All IsVetted (create_forked sha256 ctx r s).1.work.versions
  unfolding create_skill
  after_fork ctx (err e) s k = k
  after_fork ctx (ok body) s k = after_create ctx body (decide_create sha256 ctx body s.work) s k

  after_repair :
      (ctx : RuntimeContext) (body : SkillDraftRepair) (r : Result (SkillVersion × Skill))
      (s : SkillSession)
      → All IsVetted s.work.versions
      → All IsVetted (perform_repair sha256 ctx body r s).1.work.versions
  after_repair ctx body (err e) s k = k
  after_repair ctx body (ok (previous, skill)) s k =
      All-append IsVetted s.work.versions (repaired sha256 ctx body previous skill s ∷ []) k
        (refl, tt)

  Step-IsVetted :
      {s t : SkillSession}
      → Step sha256 s t
      → IsKeyed s.work.versions
      → All IsVetted s.work.versions
      → All IsVetted t.work.versions
  unfolding create_skill fork_skill repair_skill_draft validate_skill publish_skill
  Step-IsVetted (creates ctx body s) keyed k =
      after_create ctx body (decide_create sha256 ctx body s.work) s k
  Step-IsVetted (forks ctx id body s) keyed k =
      after_fork ctx (decide_fork sha256 ctx id body s.work) s k
  Step-IsVetted (repairs ctx id body s) keyed k =
      after_repair ctx body (decide_repair sha256 ctx id body s.work) s k
  Step-IsVetted (validates ctx id s) keyed k =
      after_validation ctx id s (get_version ctx id s.work) refl keyed k
  Step-IsVetted (publishes ctx id s) keyed k =
      after_publish ctx id s (decide_publish ctx id s.work) refl keyed k

-- Calls of the service over a table whose primary key holds at every call.
pub data KeyedReach (sha256 : String → String) (s : SkillSession) : SkillSession → Type 0 where
  start : KeyedReach sha256 s s
  call :
      {t u : SkillSession}
      → KeyedReach sha256 s t
      → IsKeyed t.work.versions
      → Step sha256 t u
      → KeyedReach sha256 s u

-- Nothing is published unchecked: after any calls by any callers, a version that is valid, waits for
-- approval or is published has a package that passes the checks of `validate_skill`, if that was so
-- before them and the ids of versions are distinct at each call.
pub KeyedReach-IsVetted :
    (sha256 : String → String) (s t : SkillSession)
    → KeyedReach sha256 s t
    → All IsVetted s.work.versions
    → All IsVetted t.work.versions
KeyedReach-IsVetted sha256 s t start k = k
KeyedReach-IsVetted sha256 s t (call r keyed step) k =
    Step-IsVetted sha256 step keyed (KeyedReach-IsVetted sha256 s _ r k)

-- A check withdraws a publication: whoever of the workspace calls `validate_skill`, in whatever role,
-- the version that it finds is no longer published when the call is over.
pub validate_skill-withdraws :
    (ctx : RuntimeContext) (id : String) (s : SkillSession) (v : SkillVersion)
    → get_version ctx id s.work ≡ ok v
    → IsKeyed s.work.versions
    → find (has_version_id v.id) (validate_skill ctx id s).1.committed.versions
      ≡ some (record v { status = if is_valid_package v then valid else invalid })
unfolding validate_skill
validate_skill-withdraws ctx id s v h keyed =
    subst
      (λ r.
        find (has_version_id v.id) (perform_validation ctx r s).1.committed.versions
        ≡ some (record v { status = verdict v }))
      (sym h)
      (find-set_status (verdict v) (is_own ctx id) s.work.versions v keyed
        (get_version-found ctx id s.work h))
