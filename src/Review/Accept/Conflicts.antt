-- ===== src/Review/Accept/Conflicts.antt =====
-- A call of `accept_patch` that raises, and one that is repeated.
use groundloom.Base.{◌≡◌, refl, String, Option, ◌⊎◌, inl, inr}
use groundloom.Store.{
  Db, Session, Project, Patch, conflicted, RuntimeContext, Result, ok, err, Raised, audit,
}
use groundloom.Review.Writes.{set_patch}
use groundloom.Review.Accept.{
  DecisionIn, Decision, already, stale, fresh, decide, perform, accept_patch, conflict_error,
  write_conflict,
}

-- The canonical rows are the same: projects with their pointers, configurations, versions, blocks.
pub record SameContent (a b : Db) : Type 0 where
  pub projects : a.projects ≡ b.projects
  pub configs : a.configs ≡ b.configs
  pub versions : a.versions ≡ b.versions
  pub blocks : a.blocks ≡ b.blocks

-- The session after a stale proposal: all is committed, and of the canonical rows none has changed.
pub record IsConflict (s : Session) (p : Patch) (t : Session) : Type 0 where
  pub content : SameContent t.work s.work
  pub patches : t.work.patches ≡ set_patch (record p { status = conflicted }) s.work.patches
  pub durable : t.committed ≡ t.work

write_conflict-IsConflict :
    (ctx : RuntimeContext) (p : Patch) (s : Session) → IsConflict s p (write_conflict ctx p s)
unfolding write_conflict audit
write_conflict-IsConflict ctx p s = record {
  content = record { projects = refl; configs = refl; versions = refl; blocks = refl };
  patches = refl;
  durable = refl;
}

perform_error :
    (ctx : RuntimeContext) (reason : Option String) (r : Result Decision) (s : Session) (e : Raised)
    → (perform ctx reason r s).0 ≡ err e
    → ((perform ctx reason r s).1 ≡ s)
      ⊎ ((p : Patch) × (project : Project) × (r ≡ ok (stale p project))
          × (e ≡ conflict_error project)
          × IsConflict s p (perform ctx reason r s).1)
unfolding perform
perform_error ctx reason (err x) s e h = inl refl
perform_error ctx reason (ok (already p v)) s e h = inl refl
perform_error ctx reason (ok (stale p project)) s e h =
    inr (p, project, refl, cc, write_conflict-IsConflict ctx p s)
perform_error ctx reason (ok (fresh p project base blocks)) s e h = cc

-- A call that raises has changed nothing, or it raises a version conflict with the project's
-- current version; then the patch is committed as conflicted, and the versions, their blocks, the
-- projects and the configurations are as they were.
pub accept_patch_error :
    (ctx : RuntimeContext) (patch_id : String) (body : DecisionIn) (s : Session) (e : Raised)
    → (accept_patch ctx patch_id body s).0 ≡ err e
    → ((accept_patch ctx patch_id body s).1 ≡ s)
      ⊎ ((p : Patch) × (project : Project) × (decide ctx patch_id body s.work
            ≡ ok (stale p project))
          × (e ≡ conflict_error project)
          × IsConflict s p (accept_patch ctx patch_id body s).1)
unfolding accept_patch
accept_patch_error ctx patch_id body s e h =
    perform_error ctx body.reason (decide ctx patch_id body s.work) s e h
