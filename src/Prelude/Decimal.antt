-- ===== src/Prelude/Decimal.antt =====
-- strconv.Atoi, and the text of a number, as "%d" has it.
use Prim.Native.Nat.{ℕ, zero, suc, ◌+◌, ◌-◌, ◌*◌, ◌/◌, ◌%◌}
use Prim.Native.Char.{code}
use Prim.Native.String.{String, ◌++◌}
use mathlib.Core.Path.{◌≡◌, refl}
use mathlib.Core.Bool.{Bool, true, false, ◌&&◌}
use mathlib.Core.Option.{Option, none, some}
use nana.Prelude.Integers.{ℤ, pos, negsuc}
use nana.Prelude.Tests.{ltb, leb, eqb, if◌then◌else◌}

-- The digits behind a value that is read.
unfoldable pub digits_value : ℕ → String → Option ℕ
digits_value value String.[] = some value
digits_value value (String.◌∷◌ c s) =
    let rest = digits_value (value * 10 + (code c - 48)) s in
    if leb 48 (code c) && leb (code c) 57 then rest else none

abbrev not_empty_value : String → Option ℕ
not_empty_value String.[] = none
not_empty_value (String.◌∷◌ c s) = digits_value 0 (String.◌∷◌ c s)

abbrev positive : Option ℕ → Option ℤ
positive none = none
positive (some n) = if ltb n 0x8000000000000000 then some (pos n) else none

abbrev negative : Option ℕ → Option ℤ
negative none = none
negative (some zero) = some (pos 0)
negative (some (suc n)) = if ltb n 0x8000000000000000 then some (negsuc n) else none

unfoldable pub atoi : String → Option ℤ
unfolding digits_value
atoi String.[] = none
atoi (String.◌∷◌ c s) =
    if eqb (code c) 43
    then positive (not_empty_value s)
    else if eqb (code c) 45
    then negative (not_empty_value s)
    else positive (digits_value 0 (String.◌∷◌ c s))

unfoldable pub int_at_most : ℤ → ℤ → Bool
int_at_most (pos m) (pos n) = leb m n
int_at_most (pos m) (negsuc n) = false
int_at_most (negsuc m) (pos n) = true
int_at_most (negsuc m) (negsuc n) = leb n m

-- The digits of a number in front of a text, with one unit of fuel for each.
abbrev digit_text : ℕ → String
digit_text n =
    if eqb n 0
    then "0"
    else if eqb n 1
    then "1"
    else if eqb n 2
    then "2"
    else if eqb n 3
    then "3"
    else if eqb n 4
    then "4"
    else if eqb n 5
    then "5"
    else if eqb n 6
    then "6"
    else if eqb n 7
    then "7"
    else if eqb n 8
    then "8"
    else "9"

unfoldable pub digits_from : ℕ → ℕ → String → String
digits_from zero n text = text
digits_from (suc fuel) n text =
    let longer = digit_text (n % 10) ++ text in
    let rest = digits_from fuel (n / 10) longer in if ltb n 10 then longer else rest

unfoldable pub decimal : ℕ → String
unfolding digits_from
decimal n = digits_from (suc n) n ""

decimal_of_1907 : decimal 1907 ≡ "1907"
unfolding decimal digits_from
decimal_of_1907 = refl

atoi_of_1907 : (atoi "1907" ≡ some (pos 1907)) × (atoi "-0" ≡ some (pos 0)) × (atoi "+" ≡ none)
unfolding atoi digits_value
atoi_of_1907 = (refl, refl, refl)
