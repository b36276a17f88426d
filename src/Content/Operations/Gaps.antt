-- ===== src/Content/Operations/Gaps.antt =====
-- Two inputs that the findings of a patch do not cover, and what the loop then leaves: a replacement
-- that names no type is checked under the type of the base version, and the citations in the payload
-- of an insertion are not checked at all.
use groundloom.Base.{
  ℕ, String, ◌≡◌, ◌≢◌, refl, true, false, Option, none, some, List, [], ◌∷◌, arith, eq_false,
}
use groundloom.Json.{Json, Fields, null, arr, nil, obj, lookup, get, get_or, or_default, is_falsy}
use groundloom.Content.BlockTypes.{validate_block_payload}
use groundloom.Content.Operations.{
  PatchOperation, Block, insert_after, replace_block, has_id, update, replaced, inserted,
  apply_operation, apply_operations,
}
use groundloom.Content.Operations.Identity.{count_id}
use groundloom.Content.Operations.Frame.{
  block_at-update_self, block_at-snoc_self, count_id-none, block_at,
}
use groundloom.Content.Operations.Contract.{IsTyped}
use groundloom.Content.Operations.Findings.{patch_findings, operation_findings, is_known}

abbrev pub replacement : String → Fields → PatchOperation
replacement i p = record {
  op = replace_block;
  block_id = some i;
  after_block_id = none;
  payload = some p;
  citations = none;
}

abbrev pub insertion : Fields → PatchOperation
insertion p = record {
  op = insert_after;
  block_id = none;
  after_block_id = none;
  payload = some p;
  citations = none;
}

is_known-block_at :
    (i : String) (bs : List Block) {b : Block}
    → block_at i bs ≡ some b
    → is_known (some i) bs ≡ true
is_known-block_at i [] h = cc
is_known-block_at i (x ∷ bs) {b} h = ground (arith, is_known-block_at i bs {b = b})

declared_type :
    (o : Option Json) (d : Json)
    → is_falsy (or_default o null) ≡ false
    → or_default o d ≡ or_default o null
declared_type none d h = cc
declared_type (some v) d h = refl

module _ (bs : List Block) (allowed : List String) (i : String) (b : Block) (p q : Fields)
    (found : block_at i bs ≡ some b) (i_named : i ≢ "")
    (named : is_falsy (get "block_type" p) ≡ false) (unnamed : lookup "block_type" q ≡ none)
    (p_typed : validate_block_payload (get "block_type" p) (obj p) ≡ [])
    (q_typed : validate_block_payload b.block_type (obj q) ≡ []) where
  first_has_no_finding : operation_findings bs allowed (replacement i p) ≡ []
  unfolding operation_findings
  first_has_no_finding = rw (named, p_typed, is_known-block_at i bs found)

  second_has_no_finding : operation_findings bs allowed (replacement i q) ≡ []
  unfolding operation_findings
  second_has_no_finding =
      rw (unnamed, found, eq_false i "" i_named, q_typed, is_known-block_at i bs found)

  drifted_block :
      (ids : ℕ → String) (k : ℕ)
      → block_at i (apply_operations ids k (replacement i p ∷ replacement i q ∷ []) bs).0
        ≡ some (replaced q (replaced p b))
  unfolding apply_operations apply_operation
  drifted_block ids k =
      rw
        (block_at-update_self i (replaced q) (update (has_id (some i)) (replaced p) bs) (λ c. refl))
        (rw (block_at-update_self i (replaced p) bs (λ c. refl)) (rw found))

  drifted_type : get_or "block_type" q (replaced p b).block_type ≡ get "block_type" p
  drifted_type = rw unnamed (declared_type (lookup "block_type" p) b.block_type named)

  -- Two replacements of one block, the first naming a new type and the second naming none, have
  -- no finding where each payload passes: the first under its own type, the second under the type in
  -- the base version. The block that they leave breaks the contract whenever the second payload does
  -- not pass under the first one's type.
  pub type_drift :
      (ids : ℕ → String) (k : ℕ)
      → validate_block_payload (get "block_type" p) (obj q) ≢ []
      → let os = replacement i p ∷ replacement i q ∷ [] in
        (patch_findings bs allowed os ≡ [])
        × ((c : Block) × (block_at i (apply_operations ids k os bs).0 ≡ some c) × ¬ IsTyped c)
  unfolding patch_findings
  type_drift ids k drifts = (
    rw (first_has_no_finding, second_has_no_finding),
    (replaced q (replaced p b), drifted_block ids k, λ t. drifts (rw drifted_type at t)),
  )

insertion_has_no_finding :
    (bs : List Block) (allowed : List String) (p : Fields)
    → validate_block_payload (get "block_type" p) (obj p) ≡ []
    → operation_findings bs allowed (insertion p) ≡ []
unfolding operation_findings
insertion_has_no_finding bs allowed p h = rw h

null_payload : (p : Json) → validate_block_payload null p ≢ []
unfolding validate_block_payload
null_payload p h = cc

-- The citations that the payload of an insertion carries are stored as they are, and no finding
-- speaks of them: an insertion of a payload that passes has no finding, whatever source versions
-- are pinned, and the new block has the payload's citations.
pub inserted_citations_unchecked :
    (bs : List Block) (allowed : List String) (p : Fields) (ids : ℕ → String) (k : ℕ)
    → count_id (ids k) bs ≡ 0
    → validate_block_payload (get "block_type" p) (obj p) ≡ []
    → (patch_findings bs allowed (insertion p ∷ []) ≡ [])
      × ((c : Block) × (block_at (ids k) (apply_operations ids k (insertion p ∷ []) bs).0 ≡ some c)
          × (c.citations ≡ get_or "citations" p (arr nil)))
unfolding patch_findings apply_operations apply_operation
inserted_citations_unchecked bs allowed Fields.end ids k fresh h =
    absurd (null_payload (obj Fields.end) h)
inserted_citations_unchecked bs allowed (Fields.field a v r) ids k fresh h =
    let new = inserted (ids k) (Fields.field a v r) in
    (
      rw (insertion_has_no_finding bs allowed (Fields.field a v r) h),
      (new, block_at-snoc_self new bs (count_id-none (ids k) bs fresh), refl),
    )
