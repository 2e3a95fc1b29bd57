-- ===== src/Mailbox/Parse/Values.antt =====
-- internal/mailbox/message.go: the values of the headers that Encode writes.
use botfam.Base.{
  or_default, ℕ, ◌≤◌, ◌<◌, String, ◌≡◌, refl, inl, inr, Bool, true, false, arith, ◌==◌, ltb,
  if◌then◌else◌, Bool-cases,
}
use botfam.Base.Text.{is_space, format_int}
use botfam.Base.Runes.{all_chars}
use botfam.Base.Numerals.{
  format_int_not_empty, is_digit, all_chars-format_int, ℤ, is_positive, parse_int, format_integer,
  parse_int-format_int, max_int64,
}
use botfam.Mailbox.Sanitize.{
  is_not_control, is_name_char, sanitize_header_value, sanitize_name, sanitize_header_value_lem,
  sanitize_name_lem,
}
use botfam.Mailbox.Reader.Trim.{is_key_char}
use botfam.Mailbox.Parse.Fields.{all_chars-weaken, is_graphic, graphic_value, IsField}

name_char-graphic : (c : ℕ) → is_name_char c ≡ true → is_graphic c ≡ true
unfolding is_name_char is_graphic is_space is_not_control
name_char-graphic c h = ground arith

pub name-graphic : (s : String) → all_chars is_graphic (sanitize_name s) ≡ true
name-graphic s =
    all_chars-weaken is_name_char is_graphic name_char-graphic (sanitize_name s)
      (sanitize_name_lem s).0

digit-graphic : (c : ℕ) → is_digit c ≡ true → is_graphic c ≡ true
unfolding is_digit is_graphic is_space is_not_control
digit-graphic c h = ground arith

pub seq-graphic :
    (i : ℤ) → all_chars is_graphic (if is_positive i then format_integer i else "") ≡ true
unfolding is_positive format_integer all_chars
seq-graphic (ℤ.pos n) = elim (Bool-cases (ltb 0 n)) [
  | inl e ↦
      rw e
        (all_chars-weaken is_digit is_graphic digit-graphic (format_int n) (all_chars-format_int n))
  | inr e ↦ rw e refl
]
seq-graphic (ℤ.negsuc n) = refl

pub directed-graphic : (b : Bool) → all_chars is_graphic (if b then "true" else "") ≡ true
unfolding all_chars is_graphic is_not_control is_space
directed-graphic true = refl
directed-graphic false = refl

pub graphic-IsField :
    (k v : String)
    → all_chars is_key_char k ≡ true
    → (k == "") ≡ false
    → all_chars is_graphic v ≡ true
    → IsField (k, v)
unfolding IsField
graphic-IsField k v hk hn h = let g = graphic_value v h in (hk, hn, g.0, g.1)

pub value-IsField :
    (k v : String) (max : ℕ)
    → all_chars is_key_char k ≡ true
    → (k == "") ≡ false
    → 0 < max
    → IsField (k, sanitize_header_value v max)
unfolding IsField
value-IsField k v max hk hn h = let g = sanitize_header_value_lem v max h in (hk, hn, g.0, g.2)

-- int64
unfoldable pub IsInt64 : ℤ → Type 0
IsInt64 (ℤ.pos n) = n ≤ max_int64
IsInt64 (ℤ.negsuc n) = n ≤ max_int64

seq_read :
    (n : ℕ)
    → n ≤ max_int64
    → (if format_int n == "" then ℤ.pos 0 else or_default (ℤ.pos 0) (parse_int (format_int n)))
      ≡ ℤ.pos n
seq_read n h = rw (parse_int-format_int n h, format_int_not_empty n) refl

pub seq_lem :
    (i : ℤ)
    → IsInt64 i
    → (let v : String = if is_positive i then format_integer i else "" in
        if v == "" then ℤ.pos 0 else or_default (ℤ.pos 0) (parse_int v))
      ≡ (if is_positive i then i else ℤ.pos 0)
unfolding is_positive format_integer IsInt64
seq_lem (ℤ.pos n) h = elim (Bool-cases (ltb 0 n)) [
  | inl e ↦ rw e (seq_read n h)
  | inr e ↦ rw e refl
]
seq_lem (ℤ.negsuc n) h = refl

pub directed_lem : (b : Bool) → ((if b then "true" else "") == "true") ≡ b
directed_lem true = refl
directed_lem false = refl
