-- ===== src/Content/BlockTypes.antt =====
-- backend/app/content_types.py: the payload contract of a content block.
use groundloom.Base.{
  ℕ, String, Bool, true, false, Option, none, some, List, [], ◌∷◌, ◌==◌, ◌&&◌, ◌||◌, not, ltb, leb,
  nat_eq, if◌then◌else◌, any, text_len, is_blank,
}
use groundloom.Json.{
  Json, Items, Fields, str, arr, obj, nil, cons, end, field, lookup, get, get_or, items_len,
  is_text,
}

abbrev pub mem : String → List String → Bool
mem s = any (λ t. t == s)

abbrev text_block_types : List String
text_block_types = "heading" ∷ "paragraph" ∷ "warning" ∷ "note" ∷ []

abbrev list_block_types : List String
list_block_types =
    "ordered_procedure" ∷ "unordered_procedure" ∷ "objective_list" ∷ "quiz" ∷ "checklist"
    ∷ "source_list" ∷ []

abbrev content_block_types : List String
content_block_types =
    "heading" ∷ "paragraph" ∷ "ordered_procedure" ∷ "unordered_procedure" ∷ "objective_list"
    ∷ "warning" ∷ "note" ∷ "table" ∷ "figure" ∷ "quiz" ∷ "checklist" ∷ "source_list" ∷ []

-- A finding's message, as the reason that it gives.
pub data Reason : Type 0 where
  not_an_object text_bounds list_bounds item_text item_object item_kind : Reason
  table_columns table_rows figure_alt_text figure_asset_ref unsupported : Reason

pub data BlockFinding : Type 0 where
  unknown_block_type : Json → BlockFinding
  invalid_block_payload : String → Reason → BlockFinding
  block_type_mismatch : String → BlockFinding

abbrev text_limit : ℕ
text_limit = 20000

-- `isinstance(text, str) and text.strip() and len(text) <= 20_000`
is_bounded_text : ℕ → Json → Bool
is_bounded_text limit (str s) = not (is_blank s) && not (ltb limit (text_len s))
is_bounded_text limit _ = false

-- The loop over `items` returns at the first item that fails.
item_reason : Items → Option Reason
unfolding is_bounded_text
item_reason nil = none
item_reason (cons (str s) rest) =
    let later = item_reason rest in if is_bounded_text 5000 (str s) then later else some item_text
item_reason (cons (obj end) rest) = some item_object
item_reason (cons (obj (field k v d)) rest) = item_reason rest
item_reason (cons _ rest) = some item_kind

-- `1 <= len(items) <= limit`
abbrev has_len : ℕ → Items → Bool
has_len limit xs = leb 1 (items_len xs) && leb (items_len xs) limit

list_reason : Json → Option Reason
unfolding item_reason
list_reason (arr items) = if has_len 100 items then item_reason items else some list_bounds
list_reason _ = some list_bounds

-- `isinstance(column, str) and column.strip()` for every column.
are_named : Items → Bool
are_named nil = true
are_named (cons (str s) rest) = not (is_blank s) && are_named rest
are_named (cons _ rest) = false

-- `isinstance(row, list) and len(row) == len(columns)` for every row.
have_width : ℕ → Items → Bool
have_width n nil = true
have_width n (cons (arr row) rest) = nat_eq (items_len row) n && have_width n rest
have_width n (cons _ rest) = false

rows_reason : ℕ → Json → Option Reason
unfolding have_width
rows_reason width (arr rows) =
    if ltb 100 (items_len rows) || not (have_width width rows) then some table_rows else none
rows_reason width _ = some table_rows

table_reason : Json → Json → Option Reason
unfolding are_named rows_reason
table_reason (arr columns) rows =
    if has_len 50 columns && are_named columns
    then rows_reason (items_len columns) rows
    else some table_columns
table_reason _ rows = some table_columns

-- `"asset_ref" in payload and not isinstance(payload["asset_ref"], str)`
asset_reason : Option Json → Option Reason
asset_reason none = none
asset_reason (some (str s)) = none
asset_reason (some _) = some figure_asset_ref

alt_text_is_blank : Json → Bool
alt_text_is_blank (str s) = is_blank s
alt_text_is_blank _ = true

figure_reason : Fields → Option Reason
unfolding asset_reason alt_text_is_blank
figure_reason payload =
    if alt_text_is_blank (get "alt_text" payload)
    then some figure_alt_text
    else asset_reason (lookup "asset_ref" payload)

-- The required shape of each supported type.
shape_reason : String → Fields → Option Reason
unfolding is_bounded_text list_reason table_reason figure_reason
shape_reason block_type payload =
    if mem block_type text_block_types
    then (if is_bounded_text text_limit (get "text" payload) then none else some text_bounds)
    else if mem block_type list_block_types
    then list_reason (get "items" payload)
    else if block_type == "table"
    then table_reason (get "columns" payload) (get "rows" payload)
    else if block_type == "figure"
    then figure_reason payload
    else some unsupported

abbrev finding_of : String → Option Reason → List BlockFinding
finding_of block_type none = []
finding_of block_type (some reason) = invalid_block_payload block_type reason ∷ []

payload_findings : String → Json → List BlockFinding
unfolding shape_reason
payload_findings block_type (obj payload) =
    if is_text (get_or "block_type" payload (str block_type)) block_type
    then finding_of block_type (shape_reason block_type payload)
    else block_type_mismatch block_type ∷ []
payload_findings block_type _ = invalid_block_payload block_type not_an_object ∷ []

unfoldable pub validate_block_payload : Json → Json → List BlockFinding
unfolding payload_findings is_blank text_len
validate_block_payload (str block_type) payload =
    if mem block_type content_block_types
    then payload_findings block_type payload
    else unknown_block_type (str block_type) ∷ []
validate_block_payload block_type payload = unknown_block_type block_type ∷ []
