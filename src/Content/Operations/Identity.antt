-- ===== src/Content/Operations/Identity.antt =====
-- The ids of blocks under the operations: a patch never gives one id to two blocks of a version.
use groundloom.Base.{
  ℕ, zero, suc, ◌+◌, ◌≤◌, String, ◌≡◌, refl, Bool, false, Option, none, some, List, [], ◌∷◌, ◌++◌,
  ◌==◌, not, inl, inr, arith, eq_iff, find, keep, insert_at, remove_first, if◌then◌else◌,
  Option-cases, Bool-cases,
}
use groundloom.Content.Operations.{
  Op, PatchOperation, Block, insert_after, replace_block, delete_block, move_block,
  replace_citations, has_id, update, insert_new, move, apply_op, apply_operation, draws,
  apply_operations,
}

-- How many blocks carry the id.
abbrev pub count_id : String → List Block → ℕ
count_id i [] = 0
count_id i (b ∷ bs) = (if b.id == i then 1 else 0) + count_id i bs

-- No two blocks of a version carry one id.
abbrev pub IsUnique : List Block → Type 0
IsUnique bs = (i : String) → count_id i bs ≤ 1

pub count_id-update :
    (i : String) (p : Block → Bool) (f : Block → Block) (bs : List Block)
    → ((b : Block) → (f b).id ≡ b.id)
    → count_id i (update p f bs) ≡ count_id i bs
count_id-update i p f [] h = refl
count_id-update i p f (b ∷ bs) h = ground (arith, h b, count_id-update i p f bs h)

pub count_id-keep :
    (i j : String) (bs : List Block)
    → count_id i (keep (λ b. not (has_id (some j) b)) bs) ≡ (if i == j then 0 else count_id i bs)
count_id-keep i j [] = ground arith
count_id-keep i j (b ∷ bs) =
    ground (arith, count_id-keep i j bs, eq_iff i j, eq_iff b.id i, eq_iff b.id j)

abbrev pub is_target : Option String → String → Bool
is_target none i = false
is_target (some j) i = i == j

count_id-delete :
    (i : String) (o : Option String) (bs : List Block)
    → count_id i (keep (λ b. not (has_id o b)) bs) ≡ (if is_target o i then 0 else count_id i bs)
count_id-delete i none [] = refl
count_id-delete i none (b ∷ bs) = ground (arith, count_id-delete i none bs)
count_id-delete i (some j) bs = count_id-keep i j bs

pub count_id-insert_at :
    (i : String) (n : ℕ) (b : Block) (bs : List Block)
    → count_id i (insert_at n b bs) ≡ (if b.id == i then 1 else 0) + count_id i bs
count_id-insert_at i zero b bs = refl
count_id-insert_at i (suc n) b [] = refl
count_id-insert_at i (suc n) b (x ∷ bs) = omega (arith, count_id-insert_at i n b bs)

-- The block that is found carries the id that was looked for.
pub find-has_id :
    (o : Option String) (bs : List Block) {m : Block} → find (has_id o) bs ≡ some m → o ≡ some m.id
find-has_id none [] h = cc
find-has_id none (b ∷ bs) h = find-has_id none bs h
find-has_id (some j) [] h = cc
find-has_id (some j) (b ∷ bs) {m} h = ground (arith, eq_iff b.id j, find-has_id (some j) bs {m = m})

-- Taking a found block out and putting it back keeps the count of every id.
pub count_id-remove_first :
    (i : String) (bs : List Block) {m : Block}
    → find (has_id (some m.id)) bs ≡ some m
    → count_id i (m ∷ remove_first (has_id (some m.id)) bs) ≡ count_id i bs
count_id-remove_first i [] h = cc
count_id-remove_first i (b ∷ bs) {m} h =
    ground (arith, eq_iff b.id m.id, count_id-remove_first i bs {m = m})

count_id-move :
    (i : String) (o : Option String) (anchor : Option String) (bs : List Block)
    → count_id i (move (find (has_id o) bs) anchor bs) ≡ count_id i bs
count_id-move i o anchor bs = elim (Option-cases (find (has_id o) bs)) [
  | inl e ↦ rw e
  | inr (m, e) ↦
      let f : find (has_id (some m.id)) bs ≡ some m = rw (← find-has_id o bs e) e in
      rw e (rw count_id-insert_at (count_id-remove_first i bs f))
]

count_id-snoc :
    (i : String) (b : Block) (bs : List Block)
    → count_id i (bs ++ b ∷ []) ≡ (if b.id == i then 1 else 0) + count_id i bs
count_id-snoc i b [] = refl
count_id-snoc i b (x ∷ bs) = omega (arith, count_id-snoc i b bs)

count_id-insert_new :
    (i : String) (anchor : Option String) (b : Block) (bs : List Block)
    → count_id i (insert_new anchor b bs) ≡ (if b.id == i then 1 else 0) + count_id i bs
count_id-insert_new i none b bs = count_id-snoc i b bs
count_id-insert_new i (some a) b bs = elim (Bool-cases (a == "")) [
  | inl e ↦ rw e (count_id-snoc i b bs)
  | inr e ↦ rw e (count_id-insert_at i _ b bs)
]

-- What an operation does to the number of blocks with the id `i`.
abbrev count_after : Op → PatchOperation → String → String → ℕ → ℕ
count_after insert_after o new_id i n = (if new_id == i then 1 else 0) + n
count_after delete_block o new_id i n = if is_target o.block_id i then 0 else n
count_after _ o new_id i n = n

count_id-apply_op :
    (op : Op) (o : PatchOperation) (new_id i : String) (bs : List Block)
    → count_id i (apply_op op o new_id bs) ≡ count_after op o new_id i (count_id i bs)
unfolding apply_op
count_id-apply_op insert_after o new_id i bs = count_id-insert_new i o.after_block_id _ bs
count_id-apply_op replace_block o new_id i bs = count_id-update i _ _ bs (λ b. refl)
count_id-apply_op delete_block o new_id i bs = count_id-delete i o.block_id bs
count_id-apply_op move_block o new_id i bs = count_id-move i o.block_id o.after_block_id bs
count_id-apply_op replace_citations o new_id i bs = count_id-update i _ _ bs (λ b. refl)

-- An operation changes the number of blocks with an id exactly so: an insertion adds one block with
-- the drawn id, a deletion leaves no block with its target's id, and the others change no number.
pub count_id-apply_operation :
    (o : PatchOperation) (new_id i : String) (bs : List Block)
    → count_id i (apply_operation o new_id bs) ≡ count_after o.op o new_id i (count_id i bs)
unfolding apply_operation
count_id-apply_operation o new_id i bs = count_id-apply_op o.op o new_id i bs

-- The ids that a run draws from the k-th on are in no block, and no two of them are equal.
pub record IsFresh (ids : ℕ → String) (k : ℕ) (bs : List Block) : Type 0 where
  pub unused : (n : ℕ) → k ≤ n → count_id (ids n) bs ≡ 0
  pub distinct : (m n : ℕ) → ids m ≡ ids n → m ≡ n

count_after_unique :
    (op : Op) (o : PatchOperation) (new_id i : String) (n : ℕ)
    → n ≤ 1
    → (new_id ≡ i → n ≡ 0)
    → count_after op o new_id i n ≤ 1
count_after_unique insert_after o new_id i n h fresh = ground (arith, eq_iff new_id i)
count_after_unique delete_block o new_id i n h fresh = ground arith
count_after_unique _ o new_id i n h fresh = h

pub apply_operation-IsUnique :
    (o : PatchOperation) (new_id : String) (bs : List Block)
    → count_id new_id bs ≡ 0
    → IsUnique bs
    → IsUnique (apply_operation o new_id bs)
apply_operation-IsUnique o new_id bs fresh h i =
    rw count_id-apply_operation
      (count_after_unique o.op o new_id i (count_id i bs) (h i) (λ e. rw (← e) fresh))

count_after_fresh :
    (op : Op) (o : PatchOperation) (ids : ℕ → String) (k n c : ℕ)
    → k + draws op ≤ n
    → c ≡ 0
    → ((m n : ℕ) → ids m ≡ ids n → m ≡ n)
    → count_after op o (ids k) (ids n) c ≡ 0
count_after_fresh insert_after o ids k n c h z distinct =
    ground (arith, eq_iff (ids k) (ids n), distinct k n)
count_after_fresh delete_block o ids k n c h z distinct = ground arith
count_after_fresh replace_block o ids k n c h z distinct = z
count_after_fresh move_block o ids k n c h z distinct = z
count_after_fresh replace_citations o ids k n c h z distinct = z

pub apply_operation-IsFresh :
    (ids : ℕ → String) (k : ℕ) (o : PatchOperation) (bs : List Block)
    → IsFresh ids k bs
    → IsFresh ids (k + draws o.op) (apply_operation o (ids k) bs)
apply_operation-IsFresh ids k o bs f = record {
  unused = λ n h. rw count_id-apply_operation (
      count_after_fresh o.op o ids k n (count_id (ids n) bs) h (f.unused n (omega arith))
        f.distinct);
  distinct = f.distinct;
}

-- Where the drawn ids are new, the blocks that a whole patch leaves have distinct ids if those of
-- its base version have: no key (version, id) is written twice.
pub apply_operations-IsUnique :
    (ids : ℕ → String) (k : ℕ) (os : List PatchOperation) (bs : List Block)
    → IsFresh ids k bs
    → IsUnique bs
    → IsUnique (apply_operations ids k os bs).0
unfolding apply_operations
apply_operations-IsUnique ids k [] bs f h = h
apply_operations-IsUnique ids k (o ∷ os) bs f h =
    apply_operations-IsUnique ids (k + draws o.op) os (apply_operation o (ids k) bs)
      (apply_operation-IsFresh ids k o bs f)
      (apply_operation-IsUnique o (ids k) bs (f.unused k (omega arith)) h)
