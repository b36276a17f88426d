-- ===== src/Retention/Shared.antt =====
-- What the deletion of a project leaves.
use groundloom.Base.{
  String, Bool, true, false, List, [], ◌∷◌, ◌==◌, ◌≡◌, refl, inl, inr, not, keep, Bool-cases,
  eq_iff, ap, subst,
}
use groundloom.Content.BlockTypes.{mem}
use groundloom.Store.{Project, ProjectConfigVersion, RuntimeContext, Scope}
use groundloom.Retention.Rows.{RetentionTables}
use groundloom.Retention.Records.{
  is_of, selections, own_configs, other_configs, removable_ids, delete_tables, delete_rows,
  delete_project_records,
}

keep-implied :
    {A : Type 0} (p q : A → Bool) (xs : List A)
    → ((x : A) → p x ≡ true → q x ≡ true)
    → keep p (keep q xs) ≡ keep p xs
keep-implied p q [] f = refl
keep-implied p q (x ∷ xs) f = elim (Bool-cases (q x)) [
  | inl e ↦ elim (Bool-cases (p x)) [
    | inl h ↦ rw e (rw h (ap (λ l. x ∷ l) (keep-implied p q xs f)))
    | inr h ↦ rw e (rw h (keep-implied p q xs f))
  ]
  | inr e ↦ elim (Bool-cases (p x)) [
    | inl h ↦ absurd (cc (f x h, e))
    | inr h ↦ rw e (rw h (keep-implied p q xs f))
  ]
]

keep-again : {A : Type 0} (p : A → Bool) (xs : List A) → keep p (keep p xs) ≡ keep p xs
keep-again p xs = keep-implied p p xs (λ x h. h)

-- A text in a filtered list passes the filter.
mem-keep :
    (v : String) (test : String → Bool) (xs : List String)
    → mem v (keep test xs) ≡ true
    → test v ≡ true
mem-keep v test [] h = cc
mem-keep v test (x ∷ xs) h = elim (Bool-cases (test x)) [
  | inl e ↦ elim (Bool-cases (x == v)) [
    | inl f ↦ subst (λ u. test u ≡ true) ((eq_iff x v).0 f) e
    | inr f ↦ mem-keep v test xs (rw f at (rw e at h))
  ]
  | inr e ↦ mem-keep v test xs (rw e at h)
]

-- Another project of the workspace selects the source version.
abbrev pub is_shared : String → String → List ProjectConfigVersion → String → Bool
is_shared project workspace configs id =
    mem id (selections (other_configs project workspace configs))

not-true : (b : Bool) → b ≡ true → not b ≡ true → false ≡ true
not-true true h k = k
not-true false h k = h

shared-left :
    (project workspace : String) (configs : List ProjectConfigVersion) (id : String)
    → is_shared project workspace configs id ≡ true
    → not (mem id (removable_ids project workspace configs)) ≡ true
unfolding removable_ids
shared-left project workspace configs id h =
    elim (Bool-cases (mem id (removable_ids project workspace configs))) [
      | inl e ↦
          let unshared =
            mem-keep id (λ v. not (is_shared project workspace configs v))
              (selections (own_configs project workspace configs)) e in
          absurd (cc (not-true (is_shared project workspace configs id) h unshared))
      | inr e ↦ rw e refl
    ]

-- Two lists have the same rows that pass a test, in the same order.
abbrev pub AreSame : {A : Type 0} → (A → Bool) → List A → List A → Type 0
AreSame test xs ys = keep test xs ≡ keep test ys

-- Not a row of the project.
abbrev pub is_foreign : String → String → String → String → Bool
is_foreign project workspace p w = not (is_of project workspace p w)

-- The second session has the rows of the first that are not the project's, and the source versions that
-- another project selects with what belongs to them.
abbrev pub LeavesOthers : String → String → Scope RetentionTables → Scope RetentionTables → Type 0
LeavesOthers project workspace s t =
    let foreign = is_foreign project workspace in
    let shared = is_shared project workspace s.session.work.configs in
    AreSame (λ r. foreign r.project_id r.workspace_id) t.session.work.patches s.session.work.patches
    × AreSame (λ r. foreign r.project_id r.workspace_id) t.session.work.configs
        s.session.work.configs
    × AreSame (λ r. foreign r.project_id r.workspace_id) t.work.exports s.work.exports
    × AreSame (λ r. foreign r.project_id r.workspace_id) t.work.runs s.work.runs
    × AreSame (λ r. foreign r.project_id r.workspace_id) t.work.tasks s.work.tasks
    × AreSame (λ r. foreign r.project_id r.workspace_id) t.work.public_events s.work.public_events
    × AreSame (λ r. foreign r.project_id r.workspace_id) t.work.todos s.work.todos
    × AreSame (λ r. foreign r.project_id r.workspace_id) t.work.outlines s.work.outlines
    × AreSame (λ r. foreign r.project_id r.workspace_id) t.work.threads s.work.threads
    × AreSame (λ v. shared v.id) t.work.source_versions s.work.source_versions
    × AreSame (λ r. shared r.source_version_id) t.work.chunks s.work.chunks
    × AreSame (λ r. shared r.source_version_id) t.work.source_blocks s.work.source_blocks
    × AreSame (λ r. shared r.source_version_id) t.work.ingestion_jobs s.work.ingestion_jobs

-- A deletion takes no more than the project: every row of another project or workspace stays, in its
-- order (patches, configurations, exports, agent runs, tasks, public events, todos, outlines and
-- threads), and so does every source version that another project of the workspace selects, with its
-- chunks, blocks and ingestion jobs.
pub delete_project_records-LeavesOthers :
    (ctx : RuntimeContext) (project : Project) (s : Scope RetentionTables)
    → LeavesOthers project.id ctx.workspace_id s (delete_project_records ctx project s)
unfolding delete_project_records delete_tables delete_rows
delete_project_records-LeavesOthers ctx project s =
    let foreign = is_foreign project.id ctx.workspace_id in
    let configs = s.session.work.configs in
    let left = shared-left project.id ctx.workspace_id configs in
    (
      keep-again (λ r. foreign r.project_id r.workspace_id) s.session.work.patches,
      keep-again (λ r. foreign r.project_id r.workspace_id) configs,
      keep-again (λ r. foreign r.project_id r.workspace_id) s.work.exports,
      keep-again (λ r. foreign r.project_id r.workspace_id) s.work.runs,
      keep-again (λ r. foreign r.project_id r.workspace_id) s.work.tasks,
      keep-again (λ r. foreign r.project_id r.workspace_id) s.work.public_events,
      keep-again (λ r. foreign r.project_id r.workspace_id) s.work.todos,
      keep-again (λ r. foreign r.project_id r.workspace_id) s.work.outlines,
      keep-again (λ r. foreign r.project_id r.workspace_id) s.work.threads,
      keep-implied _ _ s.work.source_versions (λ v h. left v.id h),
      keep-implied _ _ s.work.chunks (λ r h. left r.source_version_id h),
      keep-implied _ _ s.work.source_blocks (λ r h. left r.source_version_id h),
      keep-implied _ _ s.work.ingestion_jobs (λ r h. left r.source_version_id h),
    )
