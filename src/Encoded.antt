-- ===== src/Encoded.antt =====
-- What backend/app/auth.py and the page cursors of backend/app/services.py do with base64: its padding is
-- stripped and restored; and the split of a text at its first separator.
pub mod Laws
use Prim.Native.Char.{code}
use Prim.Native.Nat.{◌%◌}
use groundloom.Base.{ℕ, zero, suc, ◌-◌, String, Option, none, some, nat_eq, text_len, if◌then◌else◌}

-- `value.rstrip(b"=")`
abbrev pub strip_one : ℕ → String → String → String
strip_one c s String.[] = if nat_eq c 61 then String.[] else s
strip_one c s (String.◌∷◌ d r) = s

unfoldable pub strip_padding : String → String
strip_padding String.[] = String.[]
strip_padding (String.◌∷◌ c s) =
    let rest = strip_padding s in strip_one (code c) (String.◌∷◌ c rest) rest

unfoldable pub padding : ℕ → String
padding zero = String.[]
padding (suc n) = String.◌∷◌ "=" (padding n)

-- `a + b` of texts
unfoldable pub join : String → String → String
join String.[] t = t
join (String.◌∷◌ c s) t = String.◌∷◌ c (join s t)

-- `-len(value) % 4`
abbrev pub missing : String → ℕ
missing s = (4 - text_len s % 4) % 4

-- `s.split(separator, 1)` into two parts, which fails without the separator.
abbrev pub before : ℕ → ℕ → String → Option (String × String) → String → Option (String × String)
before separator c first none rest = if nat_eq c separator then some (String.[], rest) else none
before separator c first (some (a, b)) rest =
    if nat_eq c separator then some (String.[], rest) else some (join first a, b)

unfoldable pub split_first : ℕ → String → Option (String × String)
split_first separator String.[] = none
split_first separator (String.◌∷◌ c s) =
    before separator (code c) (String.◌∷◌ c String.[]) (split_first separator s) s
