-- ===== src/Base/Text.antt =====
-- Text operations of the standard library that the program calls.
use Prim.Native.Nat.{ℕ, zero, suc, ◌/◌, ◌%◌}
use Prim.Native.String
use Prim.Native.String.{String}
use mathlib.Core.Path.{◌≡◌, refl}
use mathlib.Core.Bool.{Bool, true, false}
use mathlib.Core.Option.{none, some}
use text.Mathlib.Text.{find?}
use avix.Base.Tests.{if◌then◌else◌, ltb}
use text.Mathlib.Text.{starts_with as starts_with_text}

infixr 66 ◌+++◌
abbrev pub ◌+++◌ : String → String → String
s +++ t = String.◌++◌ s t

abbrev pub starts_with : String → String → Bool
starts_with = starts_with_text

-- `s.contains(t)` on `str`
abbrev pub has_text : String → String → Bool
has_text s t = elim (find? s t) [ none ↦ false | some _ ↦ true ]

digit : ℕ → String
digit n =
    if ltb n 1
    then "0"
    else if ltb n 2
    then "1"
    else if ltb n 3
    then "2"
    else if ltb n 4
    then "3"
    else if ltb n 5
    then "4"
    else if ltb n 6
    then "5"
    else if ltb n 7
    then "6"
    else if ltb n 8
    then "7"
    else if ltb n 9
    then "8"
    else "9"

decimal_from : ℕ → ℕ → String → String
unfolding digit
decimal_from zero n rest = rest
decimal_from (suc fuel) n rest =
    let more = decimal_from fuel (n / 10) (digit (n % 10) +++ rest) in
    if ltb n 10 then digit n +++ rest else more

-- Decimal digits of a `u64`, which has at most twenty.
unfoldable pub decimal : ℕ → String
unfolding decimal_from
decimal n = decimal_from 20 n ""

decimal_test : decimal 90210 ≡ "90210"
unfolding decimal
decimal_test = refl
