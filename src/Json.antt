-- ===== src/Json.antt =====
-- JSON values, as the `dict[str, Any]` payloads of blocks and operations hold them. Of a number it is
-- kept whether it is zero, and its text: the modelled code asks no more of one.
pub mod Numbers
use groundloom.Base.{ℕ, suc, String, Bool, true, false, Option, none, some, ◌==◌, if◌then◌else◌}

mutual
  pub data Json : Type 0 where
    null : Json
    bool : Bool → Json
    number : Bool → String → Json
    str : String → Json
    arr : Items → Json
    obj : Fields → Json

  pub data Items : Type 0 where
    nil : Items
    cons : Json → Items → Items

  -- A `dict` with text keys, in insertion order.
  pub data Fields : Type 0 where
    end : Fields
    field : String → Json → Fields → Fields

-- `d.get(k)` and `k in d` together: `none` for a missing key.
abbrev pub lookup : String → Fields → Option Json
lookup k end = none
lookup k (field j v d) = if j == k then some v else lookup k d

-- `{**d, key: value}`: a key that is there keeps its place.
abbrev pub with_key : String → Json → Fields → Fields
with_key k v end = field k v end
with_key k v (field j w d) = if j == k then field j v d else field j w (with_key k v d)

-- `d.get(k, default)`
abbrev pub or_default : Option Json → Json → Json
or_default none default = default
or_default (some v) default = v

abbrev pub get_or : String → Fields → Json → Json
get_or k d default = or_default (lookup k d) default

-- `d.get(k)`, which is None for a missing key as for a JSON null.
abbrev pub get : String → Fields → Json
get k d = get_or k d null

abbrev pub items_len : Items → ℕ
items_len nil = 0
items_len (cons x xs) = suc (items_len xs)

-- `d or {}` is `{}` for a missing payload.
abbrev pub or_empty : Option Fields → Fields
or_empty none = end
or_empty (some d) = d

-- `not d`
abbrev pub is_empty : Fields → Bool
is_empty end = true
is_empty (field k v d) = false

-- `isinstance(v, str)` and the text.
abbrev pub as_text : Json → Option String
as_text (str s) = some s
as_text _ = none

-- `v == s` for a text `s`.
abbrev pub is_text : Json → String → Bool
is_text (str t) s = t == s
is_text _ s = false

-- `not v`: None, False, zero and everything empty.
abbrev pub is_falsy : Json → Bool
is_falsy null = true
is_falsy (bool b) = if b then false else true
is_falsy (number is_zero n) = is_zero
is_falsy (str s) = s == ""
is_falsy (arr nil) = true
is_falsy (arr (cons x xs)) = false
is_falsy (obj end) = true
is_falsy (obj (field k v d)) = false
