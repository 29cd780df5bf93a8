-- ===== src/Prelude/Text.antt =====
-- Decimal numbers and quoted JSON text, as `fmt` and `encoding/json` write them.
use Prim.Native.Char.{Char, code}
use Prim.Native.Nat.{ℕ, zero, suc, ◌/◌, ◌%◌}
use Prim.Native.String.{String, [], ◌∷◌, ◌++◌}
use gate4ai.Prelude.Int.{ℤ, pos, negsuc}
use gate4ai.Prelude.Tests.{ltb, eqb, if◌then◌else◌}

-- One hexadecimal digit, in lower case; a decimal digit below 10.
unfoldable pub digit_text : ℕ → String
digit_text n =
    if eqb n 0
    then "0"
    else if eqb n 1
    then "1"
    else if eqb n 2
    then "2"
    else if eqb n 3
    then "3"
    else if eqb n 4
    then "4"
    else if eqb n 5
    then "5"
    else if eqb n 6
    then "6"
    else if eqb n 7
    then "7"
    else if eqb n 8
    then "8"
    else if eqb n 9
    then "9"
    else if eqb n 10
    then "a"
    else if eqb n 11
    then "b"
    else if eqb n 12
    then "c"
    else if eqb n 13
    then "d"
    else if eqb n 14
    then "e"
    else "f"

-- The fuel is a number of digits that is never reached.
decimal : ℕ → ℕ → String
unfolding digit_text
decimal zero n = ""
decimal (suc fuel) n =
    let rest = decimal fuel (n / 10) in
    if ltb n 10 then digit_text n else rest ++ digit_text (n % 10)

unfoldable pub show_ℕ : ℕ → String
unfolding decimal
show_ℕ n = decimal (suc n) n

unfoldable pub show_ℤ : ℤ → String
unfolding show_ℕ
show_ℤ (pos n) = show_ℕ n
show_ℤ (negsuc n) = "-" ++ show_ℕ (suc n)

-- One character of a JSON text, with Go's escapes (those of HTML among them).
escape : Char → String
unfolding digit_text
escape c =
    let n = code c in
    if eqb n 34
    then "\\\""
    else if eqb n 92
    then "\\\\"
    else if eqb n 8
    then "\\b"
    else if eqb n 12
    then "\\f"
    else if eqb n 10
    then "\\n"
    else if eqb n 13
    then "\\r"
    else if eqb n 9
    then "\\t"
    else if ltb n 32
    then "\\u00" ++ digit_text (n / 16) ++ digit_text (n % 16)
    else if eqb n 60
    then "\\u003c"
    else if eqb n 62
    then "\\u003e"
    else if eqb n 38
    then "\\u0026"
    else if eqb n 8232
    then "\\u2028"
    else if eqb n 8233
    then "\\u2029"
    else c ∷ ""

escape_all : String → String
unfolding escape
escape_all [] = ""
escape_all (c ∷ s) = escape c ++ escape_all s

unfoldable pub quote : String → String
unfolding escape_all
quote s = "\"" ++ escape_all s ++ "\""
