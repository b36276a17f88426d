-- ===== src/Skills/Patterns.antt =====
-- The two regular expressions of the skill service in backend/app/services.py, as searches over a
-- text: `(api[_ -]?key|password|secret|token)\s*[:=]` and `(^|\n)\s*(sudo|rm -rf|curl\s+http)`,
-- both without regard to case. The words start with no space, so skipping all spaces is exact.
use Prim.Native.Char.{code}
use groundloom.Base.{
  ℕ, ◌+◌, String, Bool, true, false, Option, none, some, List, [], ◌∷◌, ◌||◌, ◌&&◌, leb, nat_eq,
  any, is_space, if◌then◌else◌,
}

-- The character without its case. Python folds the long s, the Kelvin sign, the capital I with a dot and
-- the i without one to letters too.
abbrev fold : ℕ → ℕ
fold c =
    if leb 65 c && leb c 90
    then c + 32
    else if nat_eq c 383
    then 115
    else if nat_eq c 8490
    then 107
    else if nat_eq c 304 || nat_eq c 305
    then 105
    else c

-- What stands after a word, if the text starts with it.
after_word : String → String → Option String
after_word String.[] s = some s
after_word (String.◌∷◌ c w) String.[] = none
after_word (String.◌∷◌ c w) (String.◌∷◌ d s) =
    let rest = after_word w s in if nat_eq (code c) (fold (code d)) then rest else none

skip_spaces : String → String
skip_spaces String.[] = String.[]
skip_spaces (String.◌∷◌ c s) =
    let rest = skip_spaces s in if is_space (code c) then rest else String.◌∷◌ c s

-- `[:=]`
starts_value : String → Bool
starts_value String.[] = false
starts_value (String.◌∷◌ c s) = nat_eq (code c) 58 || nat_eq (code c) 61

names_value : Option String → Bool
unfolding skip_spaces starts_value
names_value none = false
names_value (some s) = starts_value (skip_spaces s)

abbrev secret_words : List String
secret_words = "apikey" ∷ "api_key" ∷ "api-key" ∷ "api key" ∷ "password" ∷ "secret" ∷ "token" ∷ []

unfoldable pub contains_secret : String → Bool
unfolding after_word names_value
contains_secret String.[] = false
contains_secret (String.◌∷◌ c s) =
    any (λ w. names_value (after_word w (String.◌∷◌ c s))) secret_words || contains_secret s

is_found : Option String → Bool
is_found none = false
is_found (some s) = true

starts_with_space : String → Bool
starts_with_space String.[] = false
starts_with_space (String.◌∷◌ c s) = is_space (code c)

-- `\s+http`, after `curl`.
fetches : Option String → Bool
unfolding after_word skip_spaces is_found starts_with_space
fetches none = false
fetches (some s) = starts_with_space s && is_found (after_word "http" (skip_spaces s))

-- `\s*(sudo|rm -rf|curl\s+http)`, where a line begins.
is_command : String → Bool
unfolding after_word skip_spaces is_found fetches
is_command line =
    let s = skip_spaces line in
    is_found (after_word "sudo" s)
    || is_found (after_word "rm -rf" s)
    || fetches (after_word "curl" s)

after_newline : String → Bool
unfolding is_command
after_newline String.[] = false
after_newline (String.◌∷◌ c s) = (nat_eq (code c) 10 && is_command s) || after_newline s

unfoldable pub contains_command : String → Bool
unfolding is_command after_newline
contains_command s = is_command s || after_newline s
