-- ===== src/Content/Operations/Places.antt =====
-- Where an insertion and a move put a block, and that a move only reorders.
use groundloom.Base.{
  ℕ, suc, String, ◌≡◌, ◌≢◌, refl, Bool, false, Option, none, some, List, [], ◌∷◌, ◌++◌, inl, inr,
  arith, length, find, find_index, insert_at, remove_first, Bool-cases, ◌∙◌, ap, eq_false,
}
use native.Mathlib.Numerals.{add-one}
use mathlib.Core.Option.{some-injective}
use mathlib.Core.List.{Perm}
use mathlib.Core.List.Perm
use groundloom.Content.Operations.{
  PatchOperation, Block, insert_after, move_block, has_id, move, inserted, insert_payload,
  apply_operation,
}
use groundloom.Content.Operations.Identity.{find-has_id}

module _ {ℓ} {A : Type ℓ} where
  find_index-none : (p : A → Bool) (xs : List A) → find p xs ≡ none → find_index p xs ≡ none
  find_index-none p [] h = refl
  find_index-none p (x ∷ xs) h = ground (arith, find_index-none p xs)

  -- The list around the first element that passes a test.
  pub record Around (p : A → Bool) (xs : List A) (a : A) : Type ℓ where
    pub before : List A
    pub after : List A
    pub whole : xs ≡ before ++ a ∷ after
    pub index : find_index p xs ≡ some (length before)

  Around-tail :
      (p : A → Bool) (x a : A) (xs : List A) → p x ≡ false → Around p xs a → Around p (x ∷ xs) a
  Around-tail p x a xs h r = record {
    before = x ∷ r.before;
    after = r.after;
    whole = ap (λ l. x ∷ l) r.whole;
    index = rw h (rw r.index);
  }

  around : (p : A → Bool) (xs : List A) {a : A} → find p xs ≡ some a → Around p xs a
  around p [] h = cc
  around p (x ∷ xs) {a} h = elim (Bool-cases (p x)) [
    | inl e ↦ record {
      before = [];
      after = xs;
      whole = ap (λ y. y ∷ xs) (some-injective _ _ (rw e at h));
      index = rw e;
    }
    | inr e ↦ Around-tail p x a xs e (around p xs (rw e at h))
  ]

  insert_at-middle :
      (xs ys : List A) (a b : A) → insert_at (suc (length xs)) b (xs ++ a ∷ ys) ≡ xs ++ a ∷ b ∷ ys
  insert_at-middle [] ys a b = refl
  insert_at-middle (x ∷ xs) ys a b = ap (λ l. x ∷ l) (insert_at-middle xs ys a b)

  insert-Around :
      (p : A → Bool) (xs : List A) (a b : A) (r : Around p xs a)
      → insert_at (suc (length r.before)) b xs ≡ r.before ++ a ∷ b ∷ r.after
  insert-Around p xs a b r =
      ap (insert_at (suc (length r.before)) b) r.whole ∙ insert_at-middle r.before r.after a b

  insert_at-length : (xs : List A) (b : A) → insert_at (length xs) b xs ≡ xs ++ b ∷ []
  insert_at-length [] b = refl
  insert_at-length (x ∷ xs) b = ap (λ l. x ∷ l) (insert_at-length xs b)

  insert_at-perm : (n : ℕ) (b : A) (xs : List A) → Perm (insert_at n b xs) (b ∷ xs)
  insert_at-perm ℕ.zero b xs = Perm.refl (b ∷ xs)
  insert_at-perm (suc n) b [] = Perm.refl (b ∷ [])
  insert_at-perm (suc n) b (x ∷ xs) =
      Perm.trans (Perm.cons x (insert_at-perm n b xs)) (Perm.swap b x xs)

  remove_first-perm :
      (p : A → Bool) (xs : List A) {a : A} → find p xs ≡ some a → Perm (a ∷ remove_first p xs) xs
  remove_first-perm p [] h = cc
  remove_first-perm p (x ∷ xs) {a} h = elim (Bool-cases (p x)) [
    | inl e ↦ rw (e, some-injective _ _ (rw e at h)) (Perm.refl (a ∷ xs))
    | inr e ↦ rw e (
        Perm.trans (Perm.swap x a (remove_first p xs))
          (Perm.cons x (remove_first-perm p xs (rw e at h))))
  ]

-- A move leaves the same blocks, as often, in some order.
pub move-Perm :
    (o : PatchOperation) (new_id : String) (bs : List Block)
    → o.op ≡ move_block
    → Perm (apply_operation o new_id bs) bs
unfolding apply_operation
move-Perm o new_id bs is_move = rw is_move (moved (find (has_id o.block_id) bs) refl)
  where
    moved :
        (m : Option Block) → find (has_id o.block_id) bs ≡ m → Perm (move m o.after_block_id bs) bs
    moved none e = Perm.refl bs
    moved (some m) e =
        let f : find (has_id (some m.id)) bs ≡ some m = rw (← find-has_id o.block_id bs e) e in
        Perm.trans (insert_at-perm _ m _) (remove_first-perm (has_id (some m.id)) bs f)

-- The blocks that stay when the block `m` is taken out.
abbrev pub without : Block → List Block → List Block
without m bs = remove_first (has_id (some m.id)) bs

-- A moved block comes to stand directly after the anchor, between the same neighbours, if the
-- anchor is among the other blocks.
pub move_after_anchor :
    (o : PatchOperation) (new_id : String) (bs : List Block) {m a : Block}
    → o.op ≡ move_block
    → find (has_id o.block_id) bs ≡ some m
    → find (has_id o.after_block_id) (without m bs) ≡ some a
    → (before : List Block) × (after : List Block) × (without m bs ≡ before ++ a ∷ after)
      × (apply_operation o new_id bs ≡ before ++ a ∷ m ∷ after)
unfolding apply_operation
move_after_anchor o new_id bs {m} {a} is_move found anchored =
    let r = around (has_id o.after_block_id) (without m bs) anchored in
    (
      r.before,
      r.after,
      r.whole,
      rw (is_move, found, r.index) (insert-Around (has_id o.after_block_id) (without m bs) a m r),
    )

-- Without such an anchor, and so also after itself, it comes to stand at the end.
pub move_to_end :
    (o : PatchOperation) (new_id : String) (bs : List Block) {m : Block}
    → o.op ≡ move_block
    → find (has_id o.block_id) bs ≡ some m
    → find (has_id o.after_block_id) (without m bs) ≡ none
    → apply_operation o new_id bs ≡ without m bs ++ m ∷ []
unfolding apply_operation
move_to_end o new_id bs {m} is_move found missing =
    rw (is_move, found, find_index-none (has_id o.after_block_id) (without m bs) missing)
      (insert_at-length (without m bs) m)

-- A new block comes to stand directly after its anchor, and every other block keeps its place.
pub insert_after_anchor :
    (o : PatchOperation) (new_id anchor : String) (bs : List Block) {a : Block}
    → o.op ≡ insert_after
    → o.after_block_id ≡ some anchor
    → anchor ≢ ""
    → find (has_id (some anchor)) bs ≡ some a
    → (before : List Block) × (after : List Block) × (bs ≡ before ++ a ∷ after)
      × (apply_operation o new_id bs
          ≡ before ++ a ∷ inserted new_id (insert_payload o.payload) ∷ after)
unfolding apply_operation
insert_after_anchor o new_id anchor bs {a} is_insert at is_named found =
    let r = around (has_id (some anchor)) bs found in
    (
      r.before,
      r.after,
      r.whole,
      rw (is_insert, at, eq_false anchor "" is_named, r.index)
          (rw add-one (
            insert-Around (has_id (some anchor)) bs a (inserted new_id (insert_payload o.payload))
              r)),
    )
