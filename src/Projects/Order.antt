-- ===== src/Projects/Order.antt =====
-- The rows of a query are in order: each precedes all that follow it.
use groundloom.Base.{
  Bool, true, false, List, [], ◌∷◌, ◌++◌, ◌==◌, keep, All, All-weaken, All-keep, Bool-cases, ◌≡◌,
  refl, arith, inl, inr, eq_iff, ap,
}
use groundloom.Store.{Project, RuntimeContext}
use groundloom.Projects.Texts.{less_irreflexive, less_transitive, less-total}
use groundloom.Projects.Pages.{precedes, insert_row, order_rows, listing}

pub precedes_itself : (p : Project) → precedes p p ≡ false
precedes_itself p = ground (arith, less_irreflexive p.id)

pub precedes_transitive :
    (p q r : Project) → precedes p q ≡ true → precedes q r ≡ true → precedes p r ≡ true
precedes_transitive p q r h k = ground (arith, less_transitive r.id q.id p.id)

pub precedes_one_way : (p q : Project) → precedes p q ≡ true → precedes q p ≡ false
precedes_one_way p q h = elim (Bool-cases (precedes q p)) [
  | inl e ↦ absurd (cc (precedes_transitive p q p h e, precedes_itself p))
  | inr e ↦ e
]

precedes-total :
    (p q : Project) → (p.id == q.id) ≡ false → precedes p q ≡ false → precedes q p ≡ true
precedes-total p q h k = elim (less-total p.id q.id) [
  | inl e ↦ ground (arith, e)
  | inr (inl e) ↦ ground (arith, e)
  | inr (inr e) ↦ ground (arith, (eq_iff p.id q.id).1 e)
]

abbrev pub IsOrdered : List Project → Type 0
IsOrdered [] = Unit
IsOrdered (p ∷ ps) = All (λ q. precedes p q ≡ true) ps × IsOrdered ps

-- Distinct primary keys.
abbrev pub IsKeyed : List Project → Type 0
IsKeyed [] = Unit
IsKeyed (p ∷ ps) = All (λ q. (p.id == q.id) ≡ false) ps × IsKeyed ps

All-insert_row :
    (P : Project → Type 0) (p : Project) (ps : List Project)
    → P p
    → All P ps
    → All P (insert_row p ps)
All-insert_row P p [] h k = (h, tt)
All-insert_row P p (q ∷ qs) h k = elim (Bool-cases (precedes p q)) [
  | inl e ↦ rw e (h, k)
  | inr e ↦ rw e (k.0, All-insert_row P p qs h k.1)
]

insert_row-IsOrdered :
    (p : Project) (ps : List Project)
    → All (λ q. (p.id == q.id) ≡ false) ps
    → IsOrdered ps
    → IsOrdered (insert_row p ps)
insert_row-IsOrdered p [] other h = (tt, tt)
insert_row-IsOrdered p (q ∷ qs) other h = elim (Bool-cases (precedes p q)) [
  | inl e ↦ rw e (
    (
      e,
      All-weaken (λ r. precedes q r ≡ true) {Q = λ r. precedes p r ≡ true} qs
          (λ r k. precedes_transitive p q r e k) h.0,
    ),
    h,
  )
  | inr e ↦ rw e (
    All-insert_row (λ r. precedes q r ≡ true) p qs (precedes-total p q other.0 e) h.0,
    insert_row-IsOrdered p qs other.1 h.1,
  )
]

All-order_rows : (P : Project → Type 0) (ps : List Project) → All P ps → All P (order_rows ps)
All-order_rows P [] h = tt
All-order_rows P (p ∷ ps) h = All-insert_row P p (order_rows ps) h.0 (All-order_rows P ps h.1)

order_rows-IsOrdered : (ps : List Project) → IsKeyed ps → IsOrdered (order_rows ps)
order_rows-IsOrdered [] h = tt
order_rows-IsOrdered (p ∷ ps) h =
    insert_row-IsOrdered p (order_rows ps) (All-order_rows (λ q. (p.id == q.id) ≡ false) ps h.0)
      (order_rows-IsOrdered ps h.1)

keep-IsKeyed : (test : Project → Bool) (ps : List Project) → IsKeyed ps → IsKeyed (keep test ps)
keep-IsKeyed test [] h = tt
keep-IsKeyed test (p ∷ ps) h = elim (Bool-cases (test p)) [
  | inl e ↦ rw e (All-keep (λ q. (p.id == q.id) ≡ false) test ps h.0, keep-IsKeyed test ps h.1)
  | inr e ↦ rw e (keep-IsKeyed test ps h.1)
]

pub listing-IsOrdered :
    (ctx : RuntimeContext) (projects : List Project)
    → IsKeyed projects
    → IsOrdered (listing ctx projects)
unfolding listing
listing-IsOrdered ctx projects h =
    order_rows-IsOrdered (keep (λ p. p.workspace_id == ctx.workspace_id) projects)
      (keep-IsKeyed (λ p. p.workspace_id == ctx.workspace_id) projects h)

-- What every project has, every listed one has.
pub All-listing :
    (P : Project → Type 0) (ctx : RuntimeContext) (projects : List Project)
    → All P projects
    → All P (listing ctx projects)
unfolding listing
All-listing P ctx projects h =
    All-order_rows P (keep (λ p. p.workspace_id == ctx.workspace_id) projects)
      (All-keep P (λ p. p.workspace_id == ctx.workspace_id) projects h)

keep_all :
    (p : Project) (ps : List Project)
    → All (λ q. precedes p q ≡ true) ps
    → keep (precedes p) ps ≡ ps
keep_all p [] h = refl
keep_all p (q ∷ qs) h = rw h.0 (ap (λ l. q ∷ l) (keep_all p qs h.1))

pub in_the_middle :
    (P : Project → Type 0) (before : List Project) (p : Project) (after : List Project)
    → All P (before ++ p ∷ after)
    → P p
in_the_middle P [] p after h = h.0
in_the_middle P (q ∷ qs) p after h = in_the_middle P qs p after h.1

-- The rows after one of an ordered list are those that it precedes.
pub keep-after :
    (before : List Project) (p : Project) (after : List Project)
    → IsOrdered (before ++ p ∷ after)
    → keep (precedes p) (before ++ p ∷ after) ≡ after
keep-after [] p after h = rw (precedes_itself p) (keep_all p after h.0)
keep-after (q ∷ qs) p after h =
    rw (precedes_one_way q p (in_the_middle (λ r. precedes q r ≡ true) qs p after h.0))
      (keep-after qs p after h.1)
