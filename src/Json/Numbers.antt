-- ===== src/Json/Numbers.antt =====
-- A natural number as a JSON value.
use Prim.Native.Nat.{◌%◌}
use Prim.Native.String.{◌++◌ as ◌+++◌}
use groundloom.Base.{ℕ, zero, suc, ◌/◌, String, ltb, nat_eq, if◌then◌else◌}
use groundloom.Json.{Json, number}

-- A number as JSON writes it; a number has no more digits than its own value, or one.
abbrev digit : ℕ → String
digit zero = "0"
digit (suc zero) = "1"
digit (suc (suc zero)) = "2"
digit (suc (suc (suc zero))) = "3"
digit (suc (suc (suc (suc zero)))) = "4"
digit (suc (suc (suc (suc (suc zero))))) = "5"
digit (suc (suc (suc (suc (suc (suc zero)))))) = "6"
digit (suc (suc (suc (suc (suc (suc (suc zero))))))) = "7"
digit (suc (suc (suc (suc (suc (suc (suc (suc zero)))))))) = "8"
digit (suc (suc (suc (suc (suc (suc (suc (suc (suc _))))))))) = "9"

decimal : ℕ → ℕ → String
decimal zero n = digit n
decimal (suc fuel) n =
    let rest = decimal fuel (n / 10) in if ltb n 10 then digit n else rest +++ digit (n % 10)

unfoldable pub json_number : ℕ → Json
unfolding decimal
json_number n = number (nat_eq n 0) (decimal n n)
