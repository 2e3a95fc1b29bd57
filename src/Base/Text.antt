-- ===== src/Base/Text.antt =====
-- The functions of Go's `strings` and `strconv` that the program uses, over the native text.
use Prim.Native.Nat.{ℕ, zero, suc, ◌/◌, ◌%◌}
use Prim.Native.Char.{Char, code}
use Prim.Native.String.{String, ◌++◌}
use mathlib.Core.Bool.{Bool, false, ◌&&◌, ◌||◌}
use mathlib.Core.List.{List}
use mathlib.Core.Path.{◌≡◌, refl}
use mathlib.Core.Logic.{inl, inr}
use text.Mathlib.TextEquality.{eq_iff}
use text.Mathlib.TextLemmas.{cons≢nil}
use text.Mathlib.Text.{◌==◌}
use botfam.Base.Tests.{ltb, leb, nat_eq, Bool-cases, if◌then◌else◌}

-- unicode.IsSpace
unfoldable pub is_space : ℕ → Bool
is_space c =
    (leb 9 c && leb c 13)
    || nat_eq c 32
    || nat_eq c 0x85
    || nat_eq c 0xA0
    || nat_eq c 0x1680
    || (leb 0x2000 c && leb c 0x200A)
    || nat_eq c 0x2028
    || nat_eq c 0x2029
    || nat_eq c 0x202F
    || nat_eq c 0x205F
    || nat_eq c 0x3000

unfoldable pub trim_left : String → String
unfolding is_space
trim_left String.[] = String.[]
trim_left (String.◌∷◌ c s) =
    let rest = trim_left s in if is_space (code c) then rest else String.◌∷◌ c s

-- a character in front of a text whose trailing space is gone
unfoldable pub keep : Char → String → String
unfolding is_space
keep c String.[] = if is_space (code c) then String.[] else String.◌∷◌ c String.[]
keep c (String.◌∷◌ d s) = String.◌∷◌ c (String.◌∷◌ d s)

unfoldable pub trim_right : String → String
unfolding keep
trim_right String.[] = String.[]
trim_right (String.◌∷◌ c s) = keep c (trim_right s)

-- strings.TrimSpace
unfoldable pub trim_space : String → String
unfolding trim_left trim_right
trim_space s = trim_right (trim_left s)

-- strings.TrimSpace(s) == ""
unfoldable pub is_blank : String → Bool
unfolding trim_space
is_blank s = trim_space s == ""

-- strings.Join
unfoldable pub join : String → List String → String
join sep List.[] = ""
join sep (List.◌∷◌ s List.[]) = s
join sep (List.◌∷◌ s (List.◌∷◌ t rest)) = s ++ sep ++ join sep (List.◌∷◌ t rest)

unfoldable pub digit : ℕ → Char
digit zero = "0"
digit (suc zero) = "1"
digit (suc (suc zero)) = "2"
digit (suc (suc (suc zero))) = "3"
digit (suc (suc (suc (suc zero)))) = "4"
digit (suc (suc (suc (suc (suc zero))))) = "5"
digit (suc (suc (suc (suc (suc (suc zero)))))) = "6"
digit (suc (suc (suc (suc (suc (suc (suc zero))))))) = "7"
digit (suc (suc (suc (suc (suc (suc (suc (suc zero)))))))) = "8"
digit _ = "9"

-- each round divides by ten; the rounds are at most the number
unfoldable pub format_digits : ℕ → ℕ → String → String
unfolding digit
format_digits zero n out = out
format_digits (suc rounds) n out =
    let rest = format_digits rounds (n / 10) (String.◌∷◌ (digit (n % 10)) out) in
    if ltb n 10 then String.◌∷◌ (digit n) out else rest

-- strconv.FormatInt(n, 10) of a number that is not negative
unfoldable pub format_int : ℕ → String
unfolding format_digits
format_int n = format_digits (suc n) n ""

pub cons_not_empty : (c : Char) (s : String) → (String.◌∷◌ c s == "") ≡ false
cons_not_empty c s = elim (Bool-cases (String.◌∷◌ c s == "")) [
  | inl e ↦ absurd (cons≢nil ((eq_iff (String.◌∷◌ c s) "").0 e))
  | inr e ↦ e
]

keep_not_empty : (c : Char) (s : String) → is_space (code c) ≡ false → (keep c s == "") ≡ false
unfolding keep
keep_not_empty c String.[] h = rw h (cons_not_empty c String.[])
keep_not_empty c (String.◌∷◌ d s) h = cons_not_empty c (String.◌∷◌ d s)

-- A text that begins with a character that is no space is not blank.
pub is_blank-cons :
    (c : Char) (s : String) → is_space (code c) ≡ false → is_blank (String.◌∷◌ c s) ≡ false
unfolding is_blank trim_space trim_left trim_right
is_blank-cons c s h = rw h (keep_not_empty c (trim_right s) h)

format_int_test : format_int 10203 ≡ "10203"
unfolding format_int
format_int_test = refl

trim_space_test : trim_space " a b " ≡ "a b"
unfolding trim_space
trim_space_test = refl
