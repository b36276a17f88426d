-- ===== src/Content/Operations/Findings.antt =====
-- `validate_patch_operations` of backend/app/services.py, past its reads of the database: the
-- findings of a patch against the blocks of its base version and the pinned source versions.
use groundloom.Base.{
  String, Bool, true, false, Option, none, some, List, [], ◌∷◌, ◌++◌, ◌==◌, ◌&&◌, ◌||◌, not, any,
  find, if◌then◌else◌,
}
use groundloom.Json.{Json, Fields, null, str, arr, obj, get, or_empty, is_falsy}
use groundloom.Content.BlockTypes.{BlockFinding, validate_block_payload, mem}
use groundloom.Content.Operations.{Op, PatchOperation, Block, insert_after, replace_block, has_id}

pub data Finding : Type 0 where
  block_finding : BlockFinding → Finding
  unknown_block unknown_anchor : Option String → Finding
  unauthorized_citation : Finding

-- `operation.block_id not in known`
abbrev pub is_known : Option String → List Block → Bool
is_known o bs = any (has_id o) bs

-- A text that is there and not empty.
abbrev pub is_named : Option String → Bool
is_named none = false
is_named (some s) = not (s == "")

abbrev pub type_of : Option Block → Json
type_of none = null
type_of (some b) = b.block_type

-- The type that a replacement is checked against: its own, or else the type in the base version.
unfoldable pub replace_type : PatchOperation → Fields → List Block → Json
replace_type o payload bs =
    if is_falsy (get "block_type" payload) && is_named o.block_id
    then type_of (find (has_id o.block_id) bs)
    else get "block_type" payload

abbrev pub block_findings : List BlockFinding → List Finding
block_findings [] = []
block_findings (f ∷ fs) = block_finding f ∷ block_findings fs

unfoldable pub payload_part : Op → PatchOperation → List Block → List Finding
unfolding replace_type
payload_part insert_after o bs =
    let payload = or_empty o.payload in
    block_findings (validate_block_payload (get "block_type" payload) (obj payload))
payload_part replace_block o bs =
    let payload = or_empty o.payload in
    block_findings (validate_block_payload (replace_type o payload bs) (obj payload))
payload_part _ o bs = []

unfoldable pub block_part : Op → PatchOperation → List Block → List Finding
block_part insert_after o bs = []
block_part _ o bs = if is_known o.block_id bs then [] else unknown_block o.block_id ∷ []

unfoldable pub anchor_part : Op → PatchOperation → List Block → List Finding
anchor_part insert_after o bs =
    if is_named o.after_block_id && not (is_known o.after_block_id bs)
    then unknown_anchor o.after_block_id ∷ []
    else []
anchor_part _ o bs = []

-- `citation.get("source_version_id") not in allowed_versions`
abbrev pub is_allowed : List String → Json → Bool
is_allowed allowed (str v) = mem v allowed
is_allowed allowed _ = false

unfoldable pub citation_part : List String → List Fields → List Finding
citation_part allowed [] = []
citation_part allowed (c ∷ cs) =
    let rest = citation_part allowed cs in
    if is_allowed allowed (get "source_version_id" c) then rest else unauthorized_citation ∷ rest

abbrev pub citations_of : Option (List Fields) → List Fields
citations_of none = []
citations_of (some cs) = cs

unfoldable pub operation_findings : List Block → List String → PatchOperation → List Finding
unfolding payload_part block_part anchor_part citation_part
operation_findings bs allowed o =
    payload_part o.op o bs
    ++ (block_part o.op o bs
        ++ (anchor_part o.op o bs ++ citation_part allowed (citations_of o.citations)))

unfoldable pub patch_findings : List Block → List String → List PatchOperation → List Finding
unfolding operation_findings
patch_findings bs allowed [] = []
patch_findings bs allowed (o ∷ os) = operation_findings bs allowed o ++ patch_findings bs allowed os

-- A list or an object is no member of a set: the test `in` raises a TypeError.
abbrev is_unhashable : Json → Bool
is_unhashable (arr xs) = true
is_unhashable (obj d) = true
is_unhashable _ = false

-- Whether the loop meets such a citation, and so does not return.
unfoldable pub raises_type_error : List PatchOperation → Bool
raises_type_error [] = false
raises_type_error (o ∷ os) =
    any (λ c. is_unhashable (get "source_version_id" c)) (citations_of o.citations)
    || raises_type_error os
