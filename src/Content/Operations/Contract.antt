-- ===== src/Content/Operations/Contract.antt =====
-- The payload contract under the operations: what a patch with no finding leaves in a version.
use groundloom.Base.{
  ℕ, ◌+◌, String, ◌≡◌, ◌≢◌, refl, Bool, true, false, Option, none, some, List, [], ◌∷◌, ◌++◌, ◌==◌,
  arith, if◌then◌else◌, All,
}
use groundloom.Json.{Json, Fields, null, str, obj, or_default, lookup, get, or_empty, is_falsy, end}
use groundloom.Content.BlockTypes.{BlockFinding, validate_block_payload}
use groundloom.Content.Operations.{
  Op, PatchOperation, Block, insert_after, replace_block, delete_block, move_block,
  replace_citations, insert_payload, inserted, replaced, apply_operation, draws, apply_operations,
}
use groundloom.Content.Operations.Identity.{
  IsUnique, IsFresh, is_target, apply_operation-IsFresh, apply_operation-IsUnique,
}
use groundloom.Content.Operations.Frame.{map_option, block_at, effect, block_at-apply_operation}
use groundloom.Content.Operations.Findings.{
  block_findings, payload_part, operation_findings, patch_findings, replace_type,
}

-- The stored type and payload of a block meet the contract.
abbrev pub IsTyped : Block → Type 0
IsTyped b = validate_block_payload b.block_type (obj b.payload) ≡ []

abbrev pub Holds : (Block → Type 0) → Option Block → Type 0
Holds P none = Unit
Holds P (some b) = P b

-- Every block of the version, found by its id, meets the contract.
abbrev pub IsSound : List Block → Type 0
IsSound bs = (i : String) → Holds IsTyped (block_at i bs)

null_is_refused : (p : Json) → validate_block_payload null p ≢ []
unfolding validate_block_payload
null_is_refused p h = cc

-- A payload that passes under its own declared type declares it, so no default is used.
declared_is_stored :
    (o : Option Json) (d p : Json)
    → validate_block_payload (or_default o null) p ≡ []
    → validate_block_payload (or_default o d) p ≡ []
declared_is_stored none d p h = absurd (null_is_refused p h)
declared_is_stored (some v) d p h = h

append-nil_left {ℓ} : {A : Type ℓ} (xs ys : List A) → xs ++ ys ≡ [] → xs ≡ []
append-nil_left [] ys h = refl
append-nil_left (x ∷ xs) ys h = cc

append-nil_right {ℓ} : {A : Type ℓ} (xs ys : List A) → xs ++ ys ≡ [] → ys ≡ []
append-nil_right [] ys h = h
append-nil_right (x ∷ xs) ys h = cc

block_findings-nil : (fs : List BlockFinding) → block_findings fs ≡ [] → fs ≡ []
block_findings-nil [] h = refl
block_findings-nil (f ∷ fs) h = cc

payload_part-nil :
    (bs : List Block) (allowed : List String) (o : PatchOperation)
    → operation_findings bs allowed o ≡ []
    → payload_part o.op o bs ≡ []
unfolding operation_findings
payload_part-nil bs allowed o h = append-nil_left (payload_part o.op o bs) _ h

-- An insertion with no finding inserts a block that meets the contract.
inserted-IsTyped :
    (o : PatchOperation) (bs : List Block) (new_id : String)
    → payload_part insert_after o bs ≡ []
    → IsTyped (inserted new_id (insert_payload o.payload))
unfolding payload_part
inserted-IsTyped o bs new_id h = inserted_payload (or_empty o.payload) (block_findings-nil _ h)
  where
    inserted_payload :
        (p : Fields)
        → validate_block_payload (get "block_type" p) (obj p) ≡ []
        → IsTyped (inserted new_id (insert_payload (some p)))
    inserted_payload end k = absurd (null_is_refused (obj end) k)
    inserted_payload (Fields.field a v r) k =
        let p : Fields = Fields.field a v r in
        declared_is_stored (lookup "block_type" p) (str "paragraph") (obj p) k

-- A replacement that names its type is checked under the type that is stored.
replaced-IsTyped :
    (o : PatchOperation) (bs : List Block) (b : Block)
    → is_falsy (get "block_type" (or_empty o.payload)) ≡ false
    → payload_part replace_block o bs ≡ []
    → IsTyped (replaced (or_empty o.payload) b)
unfolding payload_part replace_type
replaced-IsTyped o bs b named h =
    let p = or_empty o.payload in
    declared_is_stored (lookup "block_type" p) b.block_type (obj p)
      (block_findings-nil _ (rw named at h))

-- The operation names the type of what it stores, if it is a replacement.
abbrev pub NamesType : Op → PatchOperation → Type 0
NamesType replace_block o = is_falsy (get "block_type" (or_empty o.payload)) ≡ false
NamesType _ o = Unit

Holds-if :
    (b : Bool) (x y : Option Block)
    → Holds IsTyped x
    → Holds IsTyped y
    → Holds IsTyped (if b then x else y)
Holds-if true x y h k = h
Holds-if false x y h k = k

Holds-map :
    (f : Block → Block) (x : Option Block)
    → ((b : Block) → IsTyped b → IsTyped (f b))
    → Holds IsTyped x
    → Holds IsTyped (map_option f x)
Holds-map f none h k = tt
Holds-map f (some b) h k = h b k

effect-IsTyped :
    (op : Op) (o : PatchOperation) (new_id i : String) (base : List Block) (found : Option Block)
    → payload_part op o base ≡ []
    → NamesType op o
    → Holds IsTyped found
    → Holds IsTyped (effect op o new_id i found)
effect-IsTyped insert_after o new_id i base found h n k =
    Holds-if (new_id == i) _ found (inserted-IsTyped o base new_id h) k
effect-IsTyped replace_block o new_id i base found h n k =
    Holds-if (is_target o.block_id i) _ found
      (Holds-map (replaced (or_empty o.payload)) found (λ b _. replaced-IsTyped o base b n h) k) k
effect-IsTyped delete_block o new_id i base found h n k =
    Holds-if (is_target o.block_id i) none found tt k
effect-IsTyped move_block o new_id i base found h n k = k
effect-IsTyped replace_citations o new_id i base found h n k =
    Holds-if (is_target o.block_id i) _ found (Holds-map _ found (λ b t. t) k) k

-- Every replacement of the patch names its type.
abbrev pub AllNameType : List PatchOperation → Type 0
AllNameType = All (λ o. NamesType o.op o)

-- A patch with no finding against its base version, whose replacements all name their type, leaves
-- a version whose blocks all meet the contract, if the base has distinct ids and blocks that do and
-- the drawn ids are new.
pub apply_operations-IsSound :
    (base : List Block) (allowed : List String) (ids : ℕ → String) (k : ℕ)
    (os : List PatchOperation) (bs : List Block)
    → patch_findings base allowed os ≡ []
    → AllNameType os
    → IsFresh ids k bs
    → IsUnique bs
    → IsSound bs
    → IsSound (apply_operations ids k os bs).0
unfolding apply_operations patch_findings
apply_operations-IsSound base allowed ids k [] bs h n f u s = s
apply_operations-IsSound base allowed ids k (o ∷ os) bs h n f u s =
    let new = f.unused k (omega arith) in
    apply_operations-IsSound base allowed ids (k + draws o.op) os (apply_operation o (ids k) bs)
      (append-nil_right (operation_findings base allowed o) _ h) n.1
      (apply_operation-IsFresh ids k o bs f) (apply_operation-IsUnique o (ids k) bs new u)
      (λ i. rw (block_at-apply_operation o (ids k) i bs u new) (
        effect-IsTyped o.op o (ids k) i base (block_at i bs)
          (payload_part-nil base allowed o
            (append-nil_left (operation_findings base allowed o) _ h))
          n.0 (s i)))
