-- ===== src/Content/Operations.antt =====
-- The operations of a patch (backend/app/schemas.py) and the loop of `accept_patch`
-- (backend/app/services.py) that applies them to the blocks of the base version.
pub mod Findings
pub mod Identity
pub mod Frame
pub mod Contract
pub mod Gaps
pub mod Places
use groundloom.Base.{
  ℕ, suc, ◌+◌, String, Bool, true, false, Option, none, some, List, [], ◌∷◌, ◌++◌, ◌==◌, not,
  length, find, find_index, keep, insert_at, remove_first, if◌then◌else◌,
}
use groundloom.Json.{
  Json, Items, Fields, str, arr, obj, nil, cons, end, field, get_or, is_empty, or_empty,
}

pub data Op : Type 0 where
  insert_after replace_block delete_block move_block replace_citations : Op

pub record PatchOperation : Type 0 where
  pub op : Op
  pub block_id : Option String
  pub after_block_id : Option String
  pub payload : Option Fields
  pub citations : Option (List Fields)

-- A block of one content version: its logical id, its place, its typed payload and its citations.
pub record Block : Type 0 where
  pub id : String
  pub block_type : Json
  pub order_no : ℕ
  pub payload : Fields
  pub citations : Json

-- `item["id"] == operation.get("block_id")`
abbrev pub has_id : Option String → Block → Bool
has_id none b = false
has_id (some i) b = b.id == i

abbrev pub dicts : List Fields → Items
dicts [] = nil
dicts (d ∷ ds) = cons (obj d) (dicts ds)

-- `operation.get("citations") or []`
abbrev pub cited : Option (List Fields) → Json
cited none = arr nil
cited (some ds) = arr (dicts ds)

abbrev pub replaced : Fields → Block → Block
replaced payload item = record item {
  block_type = get_or "block_type" payload item.block_type;
  payload = payload;
}

-- The loops over `new_blocks` that write the item of the operation's block.
abbrev pub update : (Block → Bool) → (Block → Block) → List Block → List Block
update p f [] = []
update p f (b ∷ bs) = (if p b then f b else b) ∷ update p f bs

-- `operation.get("payload") or {"block_type": "paragraph", "text": ""}`
abbrev pub insert_payload : Option Fields → Fields
insert_payload p =
    let d = or_empty p in
    if is_empty d then field "block_type" (str "paragraph") (field "text" (str "") end) else d

abbrev pub inserted : String → Fields → Block
inserted id payload = record {
  id = id;
  block_type = get_or "block_type" payload (str "paragraph");
  order_no = 0;
  payload = payload;
  citations = get_or "citations" payload (arr nil);
}

abbrev pub or_else : Option ℕ → ℕ → ℕ
or_else none d = d
or_else (some i) _ = i

-- A missing or empty anchor appends; an anchor that is not there gives an index past the end.
abbrev pub insert_new : Option String → Block → List Block → List Block
insert_new none item bs = bs ++ item ∷ []
insert_new (some anchor) item bs =
    if anchor == ""
    then bs ++ item ∷ []
    else insert_at (or_else (find_index (has_id (some anchor)) bs) (length bs) + 1) item bs

-- `remove` takes the first item equal to `moving`: that is `moving`, the first with its id.
-- The default index is `len(new_blocks) - 1` and the place `max(index + 1, 0)`: the length, also
-- where nothing is left and the default is -1.
abbrev pub place_after : Option ℕ → ℕ → ℕ
place_after none size = size
place_after (some i) size = suc i

abbrev pub move_after : Option String → Block → List Block → List Block
move_after anchor moving bs =
    let rest = remove_first (has_id (some moving.id)) bs in
    insert_at (place_after (find_index (has_id anchor) rest) (length rest)) moving rest

abbrev pub move : Option Block → Option String → List Block → List Block
move none anchor bs = bs
move (some moving) anchor bs = move_after anchor moving bs

-- One round of the loop over `patch.operations`, where `new_id` is what `new_id("blk")` gives.
apply_op : Op → PatchOperation → String → List Block → List Block
apply_op replace_block o new_id bs = update (has_id o.block_id) (replaced (or_empty o.payload)) bs
apply_op delete_block o new_id bs = keep (λ b. not (has_id o.block_id b)) bs
apply_op replace_citations o new_id bs =
    update (has_id o.block_id) (λ b. record b { citations = cited o.citations }) bs
apply_op insert_after o new_id bs =
    insert_new o.after_block_id (inserted new_id (insert_payload o.payload)) bs
apply_op move_block o new_id bs = move (find (has_id o.block_id) bs) o.after_block_id bs

unfoldable pub apply_operation : PatchOperation → String → List Block → List Block
unfolding apply_op
apply_operation o new_id bs = apply_op o.op o new_id bs

-- Only an insertion draws an id.
abbrev pub draws : Op → ℕ
draws insert_after = 1
draws _ = 0

-- The whole loop. `ids k` is the k-th id that is drawn; the result has the number drawn so far.
unfoldable pub apply_operations :
    (ℕ → String) → ℕ → List PatchOperation → List Block → List Block × ℕ
apply_operations ids k [] bs = (bs, k)
apply_operations ids k (o ∷ os) bs =
    apply_operations ids (k + draws o.op) os (apply_operation o (ids k) bs)

-- `enumerate(new_blocks)` gives the blocks of the new version their places.
unfoldable pub number_blocks : ℕ → List Block → List Block
number_blocks n [] = []
number_blocks n (b ∷ bs) = record b { order_no = n } ∷ number_blocks (suc n) bs
