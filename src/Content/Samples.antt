-- ===== src/Content/Samples.antt =====
-- A small version, drawn ids and a patch, as inputs of the tests.
use Prim.Native.Char.{code}
use groundloom.Base.{
  ℕ, zero, suc, String, ◌≡◌, ◌≢◌, refl, Option, none, some, List, [], ◌∷◌, arith, eq_iff, ap,
  text_len,
}
use groundloom.Content.BlockTypes.{validate_block_payload}
use groundloom.Content.Operations.Contract.{IsSound}
use groundloom.Json.{Fields, str, arr, nil, end, field}
use groundloom.Content.Operations.{PatchOperation, Block, insert_after, delete_block, move_block}
use groundloom.Content.Operations.Identity.{IsUnique, IsFresh}
use groundloom.Content.Operations.Gaps.{replacement}

abbrev pub text_payload : String → Fields
text_payload t = field "text" (str t) end

abbrev pub typed_payload : String → String → Fields
typed_payload type t = field "block_type" (str type) (field "text" (str t) end)

abbrev pub paragraph : String → Block
paragraph i = record {
  id = i;
  block_type = str "paragraph";
  order_no = 0;
  payload = text_payload "text";
  citations = arr nil;
}

abbrev pub version : List Block
version = paragraph "a" ∷ paragraph "b" ∷ paragraph "c" ∷ []

-- Ids that a run draws: t, tt, ttt, ...
abbrev pub tally : ℕ → String
tally zero = "t"
tally (suc n) = String.◌∷◌ "t" (tally n)

pub text_len-tally : (n : ℕ) → text_len (tally n) ≡ suc n
unfolding text_len
text_len-tally zero = refl
text_len-tally (suc n) = ap suc (text_len-tally n)

abbrev first_code : String → ℕ
first_code String.[] = 0
first_code (String.◌∷◌ c s) = code c

pub first_code-tally : (n : ℕ) → first_code (tally n) ≡ 116
first_code-tally zero = refl
first_code-tally (suc n) = refl

pub tally_ne : (n : ℕ) (s : String) → first_code s ≢ 116 → tally n ≢ s
tally_ne n s h e = h (omega (arith, ap first_code e, first_code-tally n))

pub tally-injective : (m n : ℕ) → tally m ≡ tally n → m ≡ n
tally-injective m n e = omega (arith, ap text_len e, text_len-tally m, text_len-tally n)

pub version-IsFresh : IsFresh tally 0 version
version-IsFresh = record {
  unused = λ n h. ground (
    arith,
    eq_iff "a" (tally n),
    eq_iff "b" (tally n),
    eq_iff "c" (tally n),
    tally_ne n "a" (omega arith),
    tally_ne n "b" (omega arith),
    tally_ne n "c" (omega arith),
  );
  distinct = tally-injective;
}

pub version-IsUnique : IsUnique version
version-IsUnique i = ground (
  arith,
  eq_iff "a" i,
  eq_iff "b" i,
  eq_iff "c" i,
  eq_iff "a" "b",
  eq_iff "a" "c",
  eq_iff "b" "c",
)

abbrev pub move_op : Option String → PatchOperation
move_op anchor = record {
  op = move_block;
  block_id = some "a";
  after_block_id = anchor;
  payload = none;
  citations = none;
}

abbrev pub insert_op : PatchOperation
insert_op = record {
  op = insert_after;
  block_id = none;
  after_block_id = some "b";
  payload = some (typed_payload "note" "new");
  citations = none;
}

abbrev pub delete_op : PatchOperation
delete_op = record {
  op = delete_block;
  block_id = some "c";
  after_block_id = none;
  payload = none;
  citations = none;
}

abbrev pub patch : List PatchOperation
patch =
    replacement "a" (typed_payload "heading" "title")
    ∷ insert_op
    ∷ move_op (some "b")
    ∷ delete_op
    ∷ []

pub version-IsSound : IsSound version
unfolding validate_block_payload
version-IsSound i = ground (arith, eq_iff "a" i, eq_iff "b" i, eq_iff "c" i)
