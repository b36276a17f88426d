-- ===== src/Content/Operations/Frame.antt =====
-- What an operation does to the block that it addresses, and that it leaves the others alone.
use groundloom.Base.{
  ℕ, zero, suc, String, ◌≡◌, ◌≢◌, refl, Option, none, some, List, [], ◌∷◌, ◌++◌, ◌==◌, not, inl,
  inr, arith, eq_iff, eq_refl, find, keep, insert_at, remove_first, if◌then◌else◌, Option-cases,
  Bool-cases, text-cases, ◌∙◌, sym,
}
use groundloom.Json.{or_empty}
use groundloom.Content.Operations.{
  Op, PatchOperation, Block, insert_after, replace_block, delete_block, move_block,
  replace_citations, has_id, replaced, update, insert_payload, inserted, insert_new, move_after,
  move, cited, apply_op, apply_operation,
}
use groundloom.Content.Operations.Identity.{
  count_id, find-has_id, IsUnique, is_target, count_id-remove_first, count_id-keep,
}

abbrev pub map_option : (Block → Block) → Option Block → Option Block
map_option f none = none
map_option f (some b) = some (f b)

-- The block of a version with the id.
abbrev pub block_at : String → List Block → Option Block
block_at i bs = find (has_id (some i)) bs

block_at-update_ne :
    (i : String) (o : Option String) (f : Block → Block) (bs : List Block)
    → o ≢ some i
    → ((b : Block) → (f b).id ≡ b.id)
    → block_at i (update (has_id o) f bs) ≡ block_at i bs
block_at-update_ne i o f [] h k = refl
block_at-update_ne i none f (b ∷ bs) h k = ground (arith, block_at-update_ne i none f bs h k)
block_at-update_ne i (some j) f (b ∷ bs) h k =
    ground (arith, block_at-update_ne i (some j) f bs h k, k b, eq_iff b.id i, eq_iff b.id j)

pub block_at-update_self :
    (i : String) (f : Block → Block) (bs : List Block)
    → ((b : Block) → (f b).id ≡ b.id)
    → block_at i (update (has_id (some i)) f bs) ≡ map_option f (block_at i bs)
block_at-update_self i f [] k = refl
block_at-update_self i f (b ∷ bs) k =
    ground (arith, block_at-update_self i f bs k, k b, eq_iff b.id i)

block_at-delete_ne :
    (i : String) (o : Option String) (bs : List Block)
    → o ≢ some i
    → block_at i (keep (λ b. not (has_id o b)) bs) ≡ block_at i bs
block_at-delete_ne i o [] h = refl
block_at-delete_ne i none (b ∷ bs) h = ground (arith, block_at-delete_ne i none bs h)
block_at-delete_ne i (some j) (b ∷ bs) h =
    ground (arith, block_at-delete_ne i (some j) bs h, eq_iff b.id i, eq_iff b.id j)

block_at-insert_at_ne :
    (i : String) (n : ℕ) (b : Block) (bs : List Block)
    → b.id ≢ i
    → block_at i (insert_at n b bs) ≡ block_at i bs
block_at-insert_at_ne i zero b bs h = ground (arith, eq_iff b.id i)
block_at-insert_at_ne i (suc n) b [] h = ground (arith, eq_iff b.id i)
block_at-insert_at_ne i (suc n) b (x ∷ bs) h = ground (arith, block_at-insert_at_ne i n b bs h)

block_at-snoc_ne :
    (i : String) (b : Block) (bs : List Block)
    → b.id ≢ i
    → block_at i (bs ++ b ∷ []) ≡ block_at i bs
block_at-snoc_ne i b [] h = ground (arith, eq_iff b.id i)
block_at-snoc_ne i b (x ∷ bs) h = ground (arith, block_at-snoc_ne i b bs h)

-- With no other block of its id, the inserted block is the one that is found.
block_at-insert_at_self :
    (n : ℕ) (b : Block) (bs : List Block)
    → block_at b.id bs ≡ none
    → block_at b.id (insert_at n b bs) ≡ some b
block_at-insert_at_self zero b bs h = ground (arith, eq_iff b.id b.id)
block_at-insert_at_self (suc n) b [] h = ground (arith, eq_iff b.id b.id)
block_at-insert_at_self (suc n) b (x ∷ bs) h =
    ground (arith, block_at-insert_at_self n b bs, eq_iff x.id b.id)

pub block_at-snoc_self :
    (b : Block) (bs : List Block) → block_at b.id bs ≡ none → block_at b.id (bs ++ b ∷ []) ≡ some b
block_at-snoc_self b [] h = ground (arith, eq_iff b.id b.id)
block_at-snoc_self b (x ∷ bs) h = ground (arith, block_at-snoc_self b bs, eq_iff x.id b.id)

block_at-remove_first_ne :
    (i j : String) (bs : List Block)
    → j ≢ i
    → block_at i (remove_first (has_id (some j)) bs) ≡ block_at i bs
block_at-remove_first_ne i j [] h = refl
block_at-remove_first_ne i j (b ∷ bs) h =
    ground (arith, block_at-remove_first_ne i j bs h, eq_iff b.id i, eq_iff b.id j)

pub count_id-none : (i : String) (bs : List Block) → count_id i bs ≡ 0 → block_at i bs ≡ none
count_id-none i [] h = refl
count_id-none i (b ∷ bs) h = ground (arith, count_id-none i bs)

block_at-move_after :
    (i : String) (m : Block) (anchor : Option String) (bs : List Block)
    → find (has_id (some m.id)) bs ≡ some m
    → IsUnique bs
    → block_at i (move_after anchor m bs) ≡ block_at i bs
block_at-move_after i m anchor bs f h = elim (text-cases m.id i) [
  | inl e ↦
      let gone : count_id m.id (remove_first (has_id (some m.id)) bs) ≡ 0 =
        ground (arith, h m.id, count_id-remove_first m.id bs f, eq_iff m.id m.id) in
      rw (← e) (block_at-insert_at_self _ m _ (count_id-none m.id _ gone) ∙ sym f)
  | inr (_, ne) ↦ block_at-insert_at_ne i _ m _ ne ∙ block_at-remove_first_ne i m.id bs ne
]

block_at-move :
    (i : String) (o : Option String) (anchor : Option String) (bs : List Block)
    → IsUnique bs
    → block_at i (move (find (has_id o) bs) anchor bs) ≡ block_at i bs
block_at-move i o anchor bs h = elim (Option-cases (find (has_id o) bs)) [
  | inl e ↦ rw e
  | inr (m, e) ↦
      let f : find (has_id (some m.id)) bs ≡ some m = rw (← find-has_id o bs e) e in
      rw e (block_at-move_after i m anchor bs f h)
]

block_at-insert_new_self :
    (anchor : Option String) (b : Block) (bs : List Block)
    → block_at b.id bs ≡ none
    → block_at b.id (insert_new anchor b bs) ≡ some b
block_at-insert_new_self none b bs h = block_at-snoc_self b bs h
block_at-insert_new_self (some a) b bs h = elim (Bool-cases (a == "")) [
  | inl e ↦ rw e (block_at-snoc_self b bs h)
  | inr e ↦ rw e (block_at-insert_at_self _ b bs h)
]

block_at-insert_new_ne :
    (i : String) (anchor : Option String) (b : Block) (bs : List Block)
    → b.id ≢ i
    → block_at i (insert_new anchor b bs) ≡ block_at i bs
block_at-insert_new_ne i none b bs h = block_at-snoc_ne i b bs h
block_at-insert_new_ne i (some a) b bs h = elim (Bool-cases (a == "")) [
  | inl e ↦ rw e (block_at-snoc_ne i b bs h)
  | inr e ↦ rw e (block_at-insert_at_ne i _ b bs h)
]

block_at-insert_new :
    (i : String) (anchor : Option String) (b : Block) (bs : List Block)
    → block_at b.id bs ≡ none
    → block_at i (insert_new anchor b bs) ≡ (if b.id == i then some b else block_at i bs)
block_at-insert_new i anchor b bs h = elim (text-cases b.id i) [
  | inl e ↦ rw (← e) (rw eq_refl (block_at-insert_new_self anchor b bs h))
  | inr (test, ne) ↦ rw test (block_at-insert_new_ne i anchor b bs ne)
]

-- What an operation does to the block with the id `i`.
abbrev pub effect : Op → PatchOperation → String → String → Option Block → Option Block
effect replace_block o new_id i b =
    if is_target o.block_id i then map_option (replaced (or_empty o.payload)) b else b
effect delete_block o new_id i b = if is_target o.block_id i then none else b
effect replace_citations o new_id i b =
    if is_target o.block_id i
    then map_option (λ c. record c { citations = cited o.citations }) b
    else b
effect insert_after o new_id i b =
    if new_id == i then some (inserted new_id (insert_payload o.payload)) else b
effect move_block o new_id i b = b

block_at-update :
    (i : String) (o : Option String) (f : Block → Block) (bs : List Block)
    → ((b : Block) → (f b).id ≡ b.id)
    → block_at i (update (has_id o) f bs)
      ≡ (if is_target o i then map_option f (block_at i bs) else block_at i bs)
block_at-update i none f bs k = block_at-update_ne i none f bs (λ e. cc) k
block_at-update i (some j) f bs k = elim (text-cases i j) [
  | inl e ↦ rw (← e) (rw eq_refl (block_at-update_self i f bs k))
  | inr (test, ne) ↦ rw test (block_at-update_ne i (some j) f bs (λ e. ne (cc)) k)
]

block_at-delete :
    (i : String) (o : Option String) (bs : List Block)
    → block_at i (keep (λ b. not (has_id o b)) bs) ≡ (if is_target o i then none else block_at i bs)
block_at-delete i none bs = block_at-delete_ne i none bs (λ e. cc)
block_at-delete i (some j) bs = elim (text-cases i j) [
  | inl e ↦
      let gone : count_id i (keep (λ b. not (has_id (some i) b)) bs) ≡ 0 =
        rw (count_id-keep i i bs) (rw eq_refl) in
      rw (← e) (rw eq_refl (count_id-none i _ gone))
  | inr (test, ne) ↦ rw test (block_at-delete_ne i (some j) bs (λ e. ne (cc)))
]

block_at-apply_op :
    (op : Op) (o : PatchOperation) (new_id i : String) (bs : List Block)
    → IsUnique bs
    → count_id new_id bs ≡ 0
    → block_at i (apply_op op o new_id bs) ≡ effect op o new_id i (block_at i bs)
unfolding apply_op
block_at-apply_op insert_after o new_id i bs h fresh =
    block_at-insert_new i o.after_block_id (inserted new_id (insert_payload o.payload)) bs
      (count_id-none new_id bs fresh)
block_at-apply_op replace_block o new_id i bs h fresh =
    block_at-update i o.block_id (replaced (or_empty o.payload)) bs (λ b. refl)
block_at-apply_op delete_block o new_id i bs h fresh = block_at-delete i o.block_id bs
block_at-apply_op move_block o new_id i bs h fresh =
    block_at-move i o.block_id o.after_block_id bs h
block_at-apply_op replace_citations o new_id i bs h fresh =
    block_at-update i o.block_id (λ c. record c { citations = cited o.citations }) bs (λ b. refl)

-- Over a version with distinct ids and a new drawn id, the block with each id after an operation is
-- `effect` of the block with that id before: an operation rewrites, removes or adds the block that
-- it addresses, a move changes none, and every other block stays as it was.
pub block_at-apply_operation :
    (o : PatchOperation) (new_id i : String) (bs : List Block)
    → IsUnique bs
    → count_id new_id bs ≡ 0
    → block_at i (apply_operation o new_id bs) ≡ effect o.op o new_id i (block_at i bs)
unfolding apply_operation
block_at-apply_operation o new_id i bs h fresh = block_at-apply_op o.op o new_id i bs h fresh
