-- ===== src/Mailbox/Spool/Names.antt =====
-- internal/mailbox/spool.go: the names of the files that one process delivers.
use Prim.Native.Char.{code}
use Prim.Native.String.{◌++◌ as append}
use text.Mathlib.TextLemmas.{cons-append, nil-append}
use botfam.Base.{
  ℕ, zero, suc, ◌-◌, ◌<◌, String, ◌≡◌, refl, sym, ap, ◌∙◌, inl, inr, true, false, Option, some,
  arith, ◌==◌, eq_iff, nat_eq, if◌then◌else◌, Bool-cases, or_default,
}
use botfam.Base.Text.{format_int}
use botfam.Base.Runes.{all_chars, runes, all_chars-append}
use botfam.Base.Numerals.{is_digit, read_digits, read_digits-format_int, all_chars-format_int}
use botfam.Mailbox.Spool.{Process, unique_name, padded, zeros}

after_dot : String → String
after_dot String.[] = ""
after_dot (String.◌∷◌ c s) = let rest = after_dot s in if nat_eq (code c) 46 then s else rest

before_dot : String → String
before_dot String.[] = ""
before_dot (String.◌∷◌ c s) =
    let rest = before_dot s in if nat_eq (code c) 46 then "" else String.◌∷◌ c rest

-- the counter that stands in a name
counter_of : String → Option ℕ
unfolding after_dot before_dot read_digits
counter_of name = read_digits 0 (before_dot (after_dot name))

after_dot-append :
    (d s : String) → all_chars is_digit d ≡ true → after_dot (append d (append "." s)) ≡ s
unfolding after_dot all_chars is_digit
after_dot-append String.[] s h =
    rw (nil-append (append "." s), cons-append "." "" s, nil-append s) refl
after_dot-append (String.◌∷◌ c d) s h =
    rw (cons-append c d (append "." s), after_dot-append d s (ground arith)) (ground arith)

before_dot-append :
    (d s : String) → all_chars is_digit d ≡ true → before_dot (append d (append "." s)) ≡ d
unfolding before_dot all_chars is_digit
before_dot-append String.[] s h = rw (nil-append (append "." s), cons-append "." "" s) refl
before_dot-append (String.◌∷◌ c d) s h =
    rw (cons-append c d (append "." s), before_dot-append d s (ground arith)) (ground arith)

all_chars-zeros : (n : ℕ) → all_chars is_digit (zeros n) ≡ true
unfolding zeros all_chars is_digit
all_chars-zeros zero = refl
all_chars-zeros (suc n) = all_chars-zeros n

all_chars-padded : (width n : ℕ) → all_chars is_digit (padded width n) ≡ true
unfolding padded
all_chars-padded width n =
    let pad = zeros (width - runes (format_int n)) in
    rw
      (
        all_chars-append is_digit pad (format_int n),
        all_chars-zeros (width - runes (format_int n)),
        all_chars-format_int n,
      )
      refl

read_digits-zeros : (n : ℕ) (s : String) → read_digits 0 (append (zeros n) s) ≡ read_digits 0 s
unfolding zeros read_digits is_digit
read_digits-zeros zero s = rw (nil-append s) refl
read_digits-zeros (suc n) s = rw (cons-append "0" (zeros n) s) (read_digits-zeros n s)

read_digits-padded : (width n : ℕ) → read_digits 0 (padded width n) ≡ some n
unfolding padded
read_digits-padded width n =
    read_digits-zeros (width - runes (format_int n)) (format_int n) ∙ read_digits-format_int n

counter_of-unique_name : (p : Process) (n : ℕ) → counter_of (unique_name p n) ≡ some n
unfolding counter_of unique_name
counter_of-unique_name p n =
    rw
      (
        after_dot-append (padded 20 (p.nanos n)) (append (padded 12 n) (append "." _))
            (all_chars-padded 20 (p.nanos n)),
        before_dot-append (padded 12 n) _ (all_chars-padded 12 n),
      )
      (read_digits-padded 12 n)

-- The names of two deliveries of a process are different, whatever its clock says.
unique_name_inj : (p : Process) (j k : ℕ) → (unique_name p j == unique_name p k) ≡ true → j ≡ k
unique_name_inj p j k h = ap (or_default 0) (
    sym (counter_of-unique_name p j)
    ∙ ap counter_of ((eq_iff (unique_name p j) (unique_name p k)).0 h)
    ∙ counter_of-unique_name p k)

pub unique_name-distinct :
    (p : Process) (j k : ℕ) → j < k → (unique_name p j == unique_name p k) ≡ false
unique_name-distinct p j k h = elim (Bool-cases (unique_name p j == unique_name p k)) [
  | inl e ↦ absurd (omega (arith, h, unique_name_inj p j k e))
  | inr e ↦ e
]
