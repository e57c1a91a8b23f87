-- ===== src/Tests/Unary.antt =====
-- An integer in unary: `+111` is 3, and `-11` is -3. A `float` is printed without its fraction.
use Prim.Native.Char.{code}
use Prim.Native.String.{String}
use mathlib.Core.Option.{map as map_option}
use simulations.Base.{
  ℕ, zero, suc, ◌==◌, ◌≡◌, refl, ap, Option, none, some, ℤ, pos, negsuc, if◌then◌else◌,
}
use simulations.Floats.{milli, scale}
use simulations.Parsers.Texts.{Extraction}
use simulations.Parsers.Colors.{text_length, NoComma}
use simulations.Scenario.Writing.{Printing}
use simulations.Parsers.Written.{IsReading}

abbrev pub ones : ℕ → String
ones zero = ""
ones (suc k) = String.◌∷◌ "1" (ones k)

abbrev pub print : ℤ → String
print (pos k) = String.◌∷◌ "+" (ones k)
print (negsuc k) = String.◌∷◌ "-" (ones k)

abbrev pub int_of : String → Option ℤ
int_of String.[] = none
int_of (String.◌∷◌ c s) =
    if code c == b'+'
    then some (pos (text_length s))
    else if code c == b'-'
    then some (negsuc (text_length s))
    else none

abbrev pub unary : Extraction milli
unary = record { int_of = int_of; float_of = λ s. map_option milli.of_int (int_of s) }

length-ones : (k : ℕ) → text_length (ones k) ≡ k
length-ones zero = refl
length-ones (suc k) = ap suc (length-ones k)

ones-NoComma : (k : ℕ) → NoComma (ones k)
ones-NoComma zero = tt
ones-NoComma (suc k) = (refl, ones-NoComma k)

pub print-NoComma : (n : ℤ) → NoComma (print n)
print-NoComma (pos k) = (refl, ones-NoComma k)
print-NoComma (negsuc k) = (refl, ones-NoComma k)

pub int_of-print : (n : ℤ) → int_of (print n) ≡ some n
int_of-print (pos k) = ap (λ j. some (pos j)) (length-ones k)
int_of-print (negsuc k) = ap (λ j. some (negsuc j)) (length-ones k)

abbrev pub printing : Printing milli
printing = record { print_int = print; print_float = λ a. print (scale a (pos 1) 1000) }

pub printing-IsReading : IsReading unary printing
printing-IsReading = record { reads = int_of-print; plain = print-NoComma; blank = refl }
