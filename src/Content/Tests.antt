-- ===== src/Content/Tests.antt =====
-- Runs of the operations on a small version, and the theorems about them at concrete inputs.
use groundloom.Base.{◌≡◌, refl, some, [], ◌∷◌, ne_of_test}
use groundloom.Json.{Fields, str, arr, nil, cons, end, field}
use groundloom.Content.BlockTypes.{validate_block_payload}
use groundloom.Content.Operations.{Block, apply_operation, apply_operations}
use groundloom.Content.Operations.Findings.{patch_findings}
use groundloom.Content.Operations.Identity.{IsUnique, apply_operations-IsUnique}
use groundloom.Content.Operations.Frame.{block_at, block_at-apply_operation}
use groundloom.Content.Operations.Contract.{IsSound, IsTyped, apply_operations-IsSound}
use groundloom.Content.Operations.Gaps.{
  replacement, insertion, type_drift, inserted_citations_unchecked,
}
use groundloom.Content.Operations.Places.{move-Perm}
use mathlib.Core.List.{Perm}
use groundloom.Content.Samples.{
  text_payload, typed_payload, paragraph, version, tally, version-IsFresh, version-IsUnique,
  version-IsSound, move_op, delete_op, patch,
}

patched_version :
    (apply_operations tally 0 patch version).0
    ≡ paragraph "b"
      ∷ record (paragraph "a") {
        block_type = str "heading";
        payload = typed_payload "heading" "title";
      }
      ∷ record (paragraph "t") { block_type = str "note"; payload = typed_payload "note" "new" }
      ∷ []
unfolding apply_operations apply_operation
patched_version = refl

patch_is_clean : patch_findings version [] patch ≡ []
unfolding patch_findings validate_block_payload
patch_is_clean = refl

apply_operations-IsUnique_example : IsUnique (apply_operations tally 0 patch version).0
apply_operations-IsUnique_example =
    apply_operations-IsUnique tally 0 patch version version-IsFresh version-IsUnique

block_at-apply_operation_example :
    block_at "a" (apply_operation delete_op "t" version) ≡ some (paragraph "a")
block_at-apply_operation_example =
    block_at-apply_operation delete_op "t" "a" version version-IsUnique refl

apply_operations-IsSound_example : IsSound (apply_operations tally 0 patch version).0
apply_operations-IsSound_example =
    apply_operations-IsSound version [] tally 0 patch version patch_is_clean
      (refl, (tt, (tt, (tt, tt)))) version-IsFresh version-IsUnique version-IsSound

move-Perm_example : Perm (apply_operation (move_op (some "b")) "t" version) version
move-Perm_example = move-Perm (move_op (some "b")) "t" version refl

-- A table without rows of text, then a text that names no type.
abbrev table_payload : Fields
table_payload =
    field "block_type" (str "table")
      (field "columns" (arr (cons (str "c") nil)) (field "rows" (arr nil) end))

type_drift_example :
    let os = replacement "a" table_payload ∷ replacement "a" (text_payload "x") ∷ [] in
    (patch_findings version [] os ≡ [])
    × ((c : Block) × (block_at "a" (apply_operations tally 0 os version).0 ≡ some c) × ¬ IsTyped c)
unfolding validate_block_payload
type_drift_example =
    type_drift version [] "a" (paragraph "a") table_payload (text_payload "x") refl
      (ne_of_test "a" "" refl) refl refl refl refl tally 0 (λ e. cc e)

-- No source version is pinned, and the inserted paragraph cites one all the same.
abbrev citing_payload : Fields
citing_payload = field "citations" (arr (cons (str "foreign") nil)) (typed_payload "paragraph" "x")

inserted_citations_unchecked_example :
    (patch_findings version [] (insertion citing_payload ∷ []) ≡ [])
    × ((c : Block) × (block_at "t"
            (apply_operations tally 0 (insertion citing_payload ∷ []) version).0
          ≡ some c)
        × (c.citations ≡ arr (cons (str "foreign") nil)))
unfolding validate_block_payload
inserted_citations_unchecked_example =
    inserted_citations_unchecked version [] citing_payload tally 0 refl refl
