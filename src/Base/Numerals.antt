-- ===== src/Base/Numerals.antt =====
-- `strconv.ParseInt` and `strconv.FormatInt` in base ten, over the whole numbers.
use Prim.Native.Nat.{ℕ, zero, suc, ◌+◌, ◌-◌, ◌*◌, ◌/◌, ◌%◌, ◌≤◌, ◌<◌}
use Prim.Native.Char.{code}
use Prim.Native.String.{String}
use Prim.Native.String.{◌++◌ as append}
use mathlib.Core.Bool.{Bool, true, false, false≢true, ◌&&◌}
use mathlib.Core.Option.{Option, none, some}
use mathlib.Core.Path.{◌≡◌, refl, ap, ◌∙◌}
use mathlib.Core.Logic.{inl, inr}
use native.Mathlib.Omega.{arith}
use text.Mathlib.Text.{◌==◌}
use botfam.Base.Tests.{ltb, leb, nat_eq, ltb→lt, if◌then◌else◌, Bool-cases}
use botfam.Base.Runes.{all_chars}
use botfam.Base.Text.{digit, format_int, format_digits, cons_not_empty}

-- An integer; `negsuc n` is −1 − n.
pub data ℤ : Type 0 where
  pos : ℕ → ℤ
  negsuc : ℕ → ℤ

unfoldable pub is_positive : ℤ → Bool
is_positive (ℤ.pos n) = ltb 0 n
is_positive (ℤ.negsuc n) = false

unfoldable pub negate : ℕ → ℤ
negate zero = ℤ.pos 0
negate (suc n) = ℤ.negsuc n

unfoldable pub is_digit : ℕ → Bool
is_digit c = leb 48 c && leb c 57

-- The number whose decimal digits follow those of `n`.
unfoldable pub read_digits : ℕ → String → Option ℕ
unfolding is_digit
read_digits n String.[] = some n
read_digits n (String.◌∷◌ c s) =
    let rest = read_digits (n * 10 + (code c - 48)) s in if is_digit (code c) then rest else none

in_range : (ℕ → ℤ) → ℕ → Option ℕ → Option ℤ
in_range sign bound none = none
in_range sign bound (some n) = if leb n bound then some (sign n) else none

-- The digits of an integer without its sign: none stands for the error.
parse_digits : (ℕ → ℤ) → ℕ → String → Option ℤ
unfolding read_digits in_range
parse_digits sign bound String.[] = none
parse_digits sign bound (String.◌∷◌ c s) = in_range sign bound (read_digits 0 (String.◌∷◌ c s))

abbrev pub max_int64 : ℕ
max_int64 = 9223372036854775807

-- strconv.ParseInt(s, 10, 64)
unfoldable pub parse_int : String → Option ℤ
unfolding parse_digits negate
parse_int String.[] = none
parse_int (String.◌∷◌ c s) =
    if nat_eq (code c) 43
    then parse_digits ℤ.pos max_int64 s
    else if nat_eq (code c) 45
    then parse_digits negate (max_int64 + 1) s
    else parse_digits ℤ.pos max_int64 (String.◌∷◌ c s)

-- strconv.FormatInt(i, 10)
unfoldable pub format_integer : ℤ → String
format_integer (ℤ.pos n) = format_int n
format_integer (ℤ.negsuc n) = append "-" (format_int (suc n))

code-digit : (d : ℕ) → d < 10 → code (digit d) ≡ 48 + d
unfolding digit
code-digit zero h = refl
code-digit (suc zero) h = refl
code-digit (suc (suc zero)) h = refl
code-digit (suc (suc (suc zero))) h = refl
code-digit (suc (suc (suc (suc zero)))) h = refl
code-digit (suc (suc (suc (suc (suc zero))))) h = refl
code-digit (suc (suc (suc (suc (suc (suc zero)))))) h = refl
code-digit (suc (suc (suc (suc (suc (suc (suc zero))))))) h = refl
code-digit (suc (suc (suc (suc (suc (suc (suc (suc zero)))))))) h = refl
code-digit (suc (suc (suc (suc (suc (suc (suc (suc (suc zero))))))))) h = refl
code-digit (suc (suc (suc (suc (suc (suc (suc (suc (suc (suc n)))))))))) h = omega arith

is_digit-add : (d : ℕ) → d < 10 → is_digit (48 + d) ≡ true
unfolding is_digit
is_digit-add d h = ground arith

read_digits-digit :
    (n d : ℕ) (out : String)
    → d < 10
    → read_digits n (String.◌∷◌ (digit d) out) ≡ read_digits (n * 10 + d) out
unfolding read_digits
read_digits-digit n d out h =
    rw (code-digit d h)
      (rw (is_digit-add d h) (ap (λ k. read_digits (n * 10 + k) out) (omega arith)))

read_digits-first :
    (n : ℕ) (out : String) → n < 10 → read_digits 0 (String.◌∷◌ (digit n) out) ≡ read_digits n out
read_digits-first n out h = read_digits-digit 0 n out h ∙ ap (λ k. read_digits k out) (omega arith)

ltb-true : (m n : ℕ) → m < n → ltb m n ≡ true
ltb-true m n h = ground arith

-- What is read from the digits of `n`, in front of other digits, is read as if after `n`.
read_digits-format_digits :
    (rounds n : ℕ) (out : String)
    → n ≤ rounds
    → read_digits 0 (format_digits (suc rounds) n out) ≡ read_digits n out
unfolding format_digits
read_digits-format_digits zero n out h =
    rw (ltb-true n 10 (omega arith)) (read_digits-first n out (omega arith))
read_digits-format_digits (suc rounds) n out h = elim (Bool-cases (ltb n 10)) [
  | inl e ↦ rw e (read_digits-first n out (ltb→lt n 10 e))
  | inr e ↦ rw e (
      read_digits-format_digits rounds (n / 10) (String.◌∷◌ (digit (n % 10)) out) (ground arith)
      ∙ read_digits-digit (n / 10) (n % 10) out (omega arith)
      ∙ ap (λ k. read_digits k out) (omega arith))
]

abbrev is_numeral : String → Bool
is_numeral String.[] = false
is_numeral (String.◌∷◌ c s) = is_digit (code c)

is_digit-digit : (n : ℕ) → n < 10 → is_digit (code (digit n)) ≡ true
is_digit-digit n h = rw (code-digit n h) (is_digit-add n h)

is_numeral-rest :
    (rounds n : ℕ) (out : String)
    → is_numeral (format_digits rounds (n / 10) (String.◌∷◌ (digit (n % 10)) out)) ≡ true
unfolding format_digits
is_numeral-rest zero n out = is_digit-digit (n % 10) (omega arith)
is_numeral-rest (suc rounds) n out = elim (Bool-cases (ltb (n / 10) 10)) [
  | inl e ↦ rw e (is_digit-digit (n / 10) (ltb→lt (n / 10) 10 e))
  | inr e ↦ rw e (is_numeral-rest rounds (n / 10) (String.◌∷◌ (digit (n % 10)) out))
]

is_numeral-format_digits :
    (rounds n : ℕ) (out : String) → is_numeral (format_digits (suc rounds) n out) ≡ true
unfolding format_digits
is_numeral-format_digits rounds n out = elim (Bool-cases (ltb n 10)) [
  | inl e ↦ rw e (is_digit-digit n (ltb→lt n 10 e))
  | inr e ↦ rw e (is_numeral-rest rounds n out)
]

parse_int-numeral :
    (s : String) → is_numeral s ≡ true → parse_int s ≡ in_range ℤ.pos max_int64 (read_digits 0 s)
unfolding parse_int parse_digits is_digit
parse_int-numeral String.[] h = absurd (false≢true h)
parse_int-numeral (String.◌∷◌ c s) h = ground arith

-- The digits of a number are read as that number.
pub read_digits-format_int : (n : ℕ) → read_digits 0 (format_int n) ≡ some n
unfolding format_int read_digits
read_digits-format_int n = read_digits-format_digits n n "" (omega arith)

-- An int64 is read back from its decimal digits.
pub parse_int-format_int : (n : ℕ) → n ≤ max_int64 → parse_int (format_int n) ≡ some (ℤ.pos n)
unfolding format_int in_range read_digits
parse_int-format_int n h =
    parse_int-numeral (format_int n) (is_numeral-format_digits n n "")
    ∙ ap (in_range ℤ.pos max_int64) (read_digits-format_digits n n "" (omega arith))
    ∙ ground arith

all_chars-format_digits :
    (rounds n : ℕ) (out : String)
    → all_chars is_digit out ≡ true
    → all_chars is_digit (format_digits rounds n out) ≡ true
unfolding format_digits all_chars
all_chars-format_digits zero n out h = h
all_chars-format_digits (suc rounds) n out h = elim (Bool-cases (ltb n 10)) [
  | inl e ↦ rw (e, is_digit-digit n (ltb→lt n 10 e)) h
  | inr e ↦ rw e (
      all_chars-format_digits rounds (n / 10) (String.◌∷◌ (digit (n % 10)) out)
        (rw (is_digit-digit (n % 10) (omega arith)) h))
]

-- A number is written with digits only.
pub all_chars-format_int : (n : ℕ) → all_chars is_digit (format_int n) ≡ true
unfolding format_int all_chars
all_chars-format_int n = all_chars-format_digits (suc n) n "" refl

numeral_not_empty : (s : String) → is_numeral s ≡ true → (s == "") ≡ false
numeral_not_empty String.[] h = absurd (false≢true h)
numeral_not_empty (String.◌∷◌ c s) h = cons_not_empty c s

pub format_int_not_empty : (n : ℕ) → (format_int n == "") ≡ false
unfolding format_int
format_int_not_empty n = numeral_not_empty (format_int n) (is_numeral-format_digits n n "")

parse_int_test : parse_int "-70012" ≡ some (ℤ.negsuc 70011)
unfolding parse_int
parse_int_test = refl

parse_int_overflow_test : parse_int "9223372036854775808" ≡ none
unfolding parse_int
parse_int_overflow_test = refl
