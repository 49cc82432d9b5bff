-- ===== src/Decision/Intake.antt =====
-- The intake text of decision/policy.py: `int` and `str.split` as the code uses them, over the
-- characters of a text. Of the digits and spaces that Python reads beyond ASCII there are none.
use Prim.Native.Char.{code}
use mathlib.Core.Option
use night_voyager.Base.{
  leb, if◌then◌else◌, ◌==◌, nat_eq, string_eq, option_eq, is_empty, list_eq, ℕ, zero, suc, ◌+◌, ◌-◌,
  ◌*◌, String, Bool, true, false, ◌&&◌, ◌||◌, Option, none, some, List, [], ◌∷◌,
}
use night_voyager.Base.Int.{ℤ, pos, negsuc}

-- The code points of a text.
abbrev pub codes : String → List ℕ
codes String.[] = []
codes (String.◌∷◌ c s) = code c ∷ codes s

abbrev pub is_space : ℕ → Bool
is_space c = (c == 32) || (leb 9 c && leb c 13) || (leb 28 c && leb c 31)

abbrev pub is_digit : ℕ → Bool
is_digit c = leb 48 c && leb c 57

abbrev skip_spaces : List ℕ → List ℕ
skip_spaces [] = []
skip_spaces (c ∷ cs) = let rest = skip_spaces cs in if is_space c then rest else c ∷ cs

-- The digits up to the spaces at the end; an underscore stands between two digits.
abbrev pub digits_from : ℕ → Bool → List ℕ → Option ℕ
digits_from acc after_digit [] = if after_digit then some acc else none
digits_from acc after_digit (c ∷ cs) =
    let next = digits_from (acc * 10 + (c - 48)) true cs in
    let gap = digits_from acc false cs in
    if is_digit c
    then next
    else if (c == 95) && after_digit
    then gap
    else if after_digit && is_empty (skip_spaces (c ∷ cs))
    then some acc
    else none

abbrev unsigned : List ℕ → Option ℕ
unsigned [] = none
unsigned (c ∷ cs) = if is_digit c then digits_from 0 false (c ∷ cs) else none

abbrev negate : ℕ → ℤ
negate zero = pos 0
negate (suc n) = negsuc n

abbrev signed : List ℕ → Option ℤ
signed [] = none
signed (c ∷ cs) =
    if c == 45
    then Option.map negate (unsigned cs)
    else if c == 43
    then Option.map pos (unsigned cs)
    else Option.map pos (unsigned (c ∷ cs))

-- `int(text)`, which raises where there is none.
unfoldable pub python_int : List ℕ → Option ℤ
python_int cs = signed (skip_spaces cs)

-- `text.split("-", maxsplit=1)`: what stands before the first dash, and after it if there is one.
unfoldable pub split_dash : List ℕ → List ℕ × Option (List ℕ)
split_dash [] = ([], none)
split_dash (c ∷ cs) =
    let (before, after) = split_dash cs in if c == 45 then ([], some cs) else (c ∷ before, after)

-- `year, month = (int(part) for part in intake.split("-", maxsplit=1))`
unfoldable pub year_and_month : String → Option (ℤ × ℤ)
year_and_month intake =
    let (before, after) = split_dash (codes intake) in
    elim (python_int before) [
      | none ↦ none
      | some year ↦ elim after [
        | none ↦ none
        | some rest ↦ elim (python_int rest) [ none ↦ none | some month ↦ some (year, month) ]
      ]
    ]
