-- ===== src/Review/Writes.antt =====
-- The assignments of the review service to rows that it has loaded: the row is found by its id.
use groundloom.Base.{String, List, [], ◌∷◌, ◌==◌, some, if◌then◌else◌}
use groundloom.Store.{Session, Project, Patch}

abbrev pub set_patch : Patch → List Patch → List Patch
set_patch p [] = []
set_patch p (q ∷ qs) = (if q.id == p.id then p else q) ∷ set_patch p qs

abbrev pub write_patch : Patch → Session → Session
write_patch p s = record s { work = record s.work { patches = set_patch p s.work.patches } }

-- `project.current_content_version_id = version_id`
abbrev pub point_project : String → String → List Project → List Project
point_project id version_id [] = []
point_project id version_id (p ∷ ps) =
    (if p.id == id then record p { current_content_version_id = some version_id } else p)
    ∷ point_project id version_id ps
