-- ===== src/Retention/Blocked.antt =====
-- What keeps a request blocked: claims, and writes of other requests.
use groundloom.Base.{
  ℕ, zero, suc, ◌+◌, max, min, String, Bool, true, false, Option, none, some, List, [], ◌∷◌, ◌==◌,
  ◌&&◌, ◌≡◌, refl, arith, inl, inr, find, keep, take, find-passes, All, Bool-cases, eq_iff, sym,
  subst,
}
use groundloom.Store.{RuntimeContext, Raised, Scope}
use groundloom.Jobs.{set_row, All-set_row, All-set_rows, claim, claimable, lease_all}
use groundloom.Retention.Rows.{
  DeletionStatus, blocked, failed, DeletionRequest, RetentionTables, request_table, is_claimable,
  is_claimable_as,
}
use groundloom.Retention.Worker.{
  claim_deletion_requests, released, find_request, fail_found, error_code_of,
}

abbrev pub is_blocked : DeletionStatus → Bool
is_blocked blocked = true
is_blocked _ = false

-- A request with the id is blocked.
abbrev pub IsBlocked : String → DeletionRequest → Type 0
IsBlocked id r = (r.id == id) ≡ true → is_blocked r.status ≡ true

abbrev pub IsOther : String → DeletionRequest → Type 0
IsOther id r = (r.id == id) ≡ false

-- All requests with the id are blocked, in the transaction and as committed.
abbrev pub StaysBlocked : String → Scope RetentionTables → Type 0
StaysBlocked id s = All (IsBlocked id) s.committed.requests × All (IsBlocked id) s.work.requests

pub other-IsBlocked : (id : String) (r : DeletionRequest) → IsOther id r → IsBlocked id r
other-IsBlocked id r h k = absurd (cc (h, k))

blocked_is_held :
    (status : DeletionStatus) (r : DeletionRequest) (now : ℕ)
    → is_blocked status ≡ true
    → is_claimable_as status r now ≡ false
blocked_is_held blocked r now h = refl
blocked_is_held _ r now h = cc

-- What can be claimed is not blocked.
claimable-IsOther :
    (id workspace : String) (now : ℕ) (r : DeletionRequest)
    → IsBlocked id r
    → is_claimable workspace now r ≡ true
    → IsOther id r
unfolding is_claimable
claimable-IsOther id workspace now r h k = elim (Bool-cases (r.id == id)) [
  | inl e ↦ ground (arith, blocked_is_held r.status r now (h e), k)
  | inr e ↦ e
]

kept-IsOther :
    (id workspace : String) (now : ℕ) (rs : List DeletionRequest)
    → All (IsBlocked id) rs
    → All (IsOther id) (keep (is_claimable workspace now) rs)
kept-IsOther id workspace now [] h = tt
kept-IsOther id workspace now (r ∷ rs) h = elim (Bool-cases (is_claimable workspace now r)) [
  | inl e ↦ rw e (claimable-IsOther id workspace now r h.0 e, kept-IsOther id workspace now rs h.1)
  | inr e ↦ rw e (kept-IsOther id workspace now rs h.1)
]

leased-IsOther :
    (id worker workspace : String) (until n : ℕ) (rs : List DeletionRequest)
    → All (IsOther id) rs
    → All (IsOther id) (lease_all (request_table workspace) worker until (take n rs))
leased-IsOther id worker workspace until zero rs h = tt
leased-IsOther id worker workspace until (suc n) [] h = tt
leased-IsOther id worker workspace until (suc n) (r ∷ rs) h =
    (h.0, leased-IsOther id worker workspace until n rs h.1)

others-IsBlocked :
    (id : String) (rs : List DeletionRequest) → All (IsOther id) rs → All (IsBlocked id) rs
others-IsBlocked id [] h = tt
others-IsBlocked id (r ∷ rs) h = (other-IsBlocked id r h.0, others-IsBlocked id rs h.1)

-- A claim takes no blocked request, and leaves it blocked.
pub after_claim :
    (id workspace worker : String) (limit lease_seconds now : ℕ) (s : Scope RetentionTables)
    → StaysBlocked id s
    → let c = claim_deletion_requests workspace worker limit lease_seconds now s in
      All (IsOther id) c.0 × StaysBlocked id c.1
unfolding claim_deletion_requests claim claimable
after_claim id workspace worker limit lease_seconds now s h =
    let table = request_table workspace in
    let rows =
      lease_all table worker (now + lease_seconds) (claimable table now limit s.work.requests) in
    let others : All (IsOther id) rows =
      leased-IsOther id worker workspace (now + lease_seconds) (max 1 (min limit 100))
        (keep (is_claimable workspace now) s.work.requests)
        (kept-IsOther id workspace now s.work.requests h.1) in
    let left =
      All-set_rows table (IsBlocked id) rows s.work.requests (others-IsBlocked id rows others)
        h.1 in
    (others, (left, left))

-- A write of another request.
pub after_write :
    (id : String) (r : DeletionRequest) (rs : List DeletionRequest)
    → IsOther id r
    → All (IsBlocked id) rs
    → All (IsBlocked id) (set_row (request_table r.workspace_id) r rs)
after_write id r rs h k =
    All-set_row (request_table r.workspace_id) (IsBlocked id) r rs (other-IsBlocked id r h) k

found-IsOther :
    (id own workspace : String) (rs : List DeletionRequest) (r : DeletionRequest)
    → (own == id) ≡ false
    → find (λ q. q.id == own && q.workspace_id == workspace) rs ≡ some r
    → IsOther id r
found-IsOther id own workspace rs r h e =
    let passes = find-passes (λ q. q.id == own && q.workspace_id == workspace) rs r e in
    let named : (r.id == own) ≡ true = ground arith in
    subst (λ i. (i == id) ≡ false) (sym ((eq_iff r.id own).0 named)) h

pub after_failure :
    (id own : String) (ctx : RuntimeContext) (e : Raised) (o : Option DeletionRequest)
    (s : Scope RetentionTables)
    → find_request ctx own s ≡ o
    → (own == id) ≡ false
    → StaysBlocked id s
    → StaysBlocked id (fail_found ctx e o s).1
after_failure id own ctx e none s f h k = k
after_failure id own ctx e (some r) s f h k =
    let other = found-IsOther id own ctx.workspace_id s.work.requests r h f in
    let rows =
      after_write id (record (released failed r) { error_code = some (error_code_of e) })
        s.work.requests other k.1 in
    (rows, rows)
