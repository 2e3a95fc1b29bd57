-- ===== src/Mailbox/Reader/Trim.antt =====
-- Trimming and cutting the texts of header lines, as net/mail does.
use Prim.Native.Char.{Char, code}
use Prim.Native.String.{◌++◌ as append}
use text.Mathlib.TextLemmas.{cons-append, nil-append}
use botfam.Base.{
  ℕ, String, ◌≡◌, refl, sym, Bool, true, false, not, ◌&&◌, false≢true, some, arith, ◌==◌, ltb,
  nat_eq,
}
use botfam.Base.Text.{is_space}
use botfam.Base.Runes.{all_chars, starts_clean}
use botfam.Mailbox.Reader.{
  starts_blank, is_blank_char, trim_blank_left, trim_blank_right, keep_blank, cut_colon, in_key,
}

-- A character of a key: none that ends a line or the key, and no space.
unfoldable pub is_key_char : ℕ → Bool
is_key_char c = ltb 32 c && not (nat_eq c 58)

keep_blank-cons :
    (c : Char) (s : String) → is_blank_char (code c) ≡ false → keep_blank c s ≡ String.◌∷◌ c s
unfolding keep_blank
keep_blank-cons c String.[] h = rw h refl
keep_blank-cons c (String.◌∷◌ d s) h = refl

pub trim_blank_right-cons :
    (c : Char) (s : String)
    → is_blank_char (code c) ≡ false
    → trim_blank_right (String.◌∷◌ c s) ≡ String.◌∷◌ c (trim_blank_right s)
unfolding trim_blank_right
trim_blank_right-cons c s h = keep_blank-cons c (trim_blank_right s) h

key_char-not_blank : (c : ℕ) → is_key_char c ≡ true → is_blank_char c ≡ false
unfolding is_key_char is_blank_char
key_char-not_blank c h = ground arith

pub trim_blank_right-append :
    (k s : String)
    → all_chars is_key_char k ≡ true
    → trim_blank_right (append k s) ≡ append k (trim_blank_right s)
unfolding all_chars
trim_blank_right-append String.[] s h = rw (nil-append s, nil-append (trim_blank_right s)) refl
trim_blank_right-append (String.◌∷◌ c k) s h =
    rw
      (
        cons-append c k s,
        cons-append c k (trim_blank_right s),
        trim_blank_right-cons c (append k s) (key_char-not_blank (code c) (ground arith)),
        trim_blank_right-append k s (ground arith),
      )
      refl

pub cut_colon-append :
    (k s : String)
    → all_chars is_key_char k ≡ true
    → cut_colon (append k (append ":" s)) ≡ some (k, s)
unfolding cut_colon all_chars is_key_char in_key
cut_colon-append String.[] s h =
    rw (nil-append (append ":" s), cons-append ":" "" s, nil-append s) refl
cut_colon-append (String.◌∷◌ c k) s h =
    rw (cons-append c k (append ":" s), cut_colon-append k s (ground arith)) (ground arith)

clean-not_blank :
    (c : Char) (s : String) → starts_clean (String.◌∷◌ c s) ≡ true → is_blank_char (code c) ≡ false
unfolding starts_clean is_space is_blank_char
clean-not_blank c s h = ground arith

after_space :
    (c : Char) (s : String)
    → is_blank_char (code c) ≡ false
    → trim_blank_left (keep_blank " " (String.◌∷◌ c s)) ≡ String.◌∷◌ c s
unfolding trim_blank_left keep_blank
after_space c s e = rw e refl

trim_blank-space : trim_blank_left (trim_blank_right (append " " "")) ≡ trim_blank_right ""
unfolding trim_blank_left trim_blank_right
trim_blank-space = refl

pub trim_blank_right-space :
    (s : String)
    → starts_clean s ≡ true
    → trim_blank_left (trim_blank_right (append " " s)) ≡ trim_blank_right s
unfolding trim_blank_right keep_blank
trim_blank_right-space String.[] h = trim_blank-space
trim_blank_right-space (String.◌∷◌ c s) h =
    let e = clean-not_blank c s h in
    rw
      (
        cons-append " " "" (String.◌∷◌ c s),
        nil-append (String.◌∷◌ c s),
        trim_blank_right-cons c s e,
      )
      (after_space c (trim_blank_right s) e)

pub trim_blank_left-key :
    (k s : String)
    → all_chars is_key_char k ≡ true
    → (k == "") ≡ false
    → trim_blank_left (append k s) ≡ append k s
unfolding trim_blank_left all_chars
trim_blank_left-key String.[] s h hn = absurd (false≢true (sym hn))
trim_blank_left-key (String.◌∷◌ c k) s h hn =
    rw (cons-append c k s, key_char-not_blank (code c) (ground arith)) refl

pub starts_blank-key :
    (k s : String)
    → all_chars is_key_char k ≡ true
    → (k == "") ≡ false
    → starts_blank (append k s) ≡ false
unfolding starts_blank all_chars
starts_blank-key String.[] s h hn = absurd (false≢true (sym hn))
starts_blank-key (String.◌∷◌ c k) s h hn =
    rw (cons-append c k s, key_char-not_blank (code c) (ground arith)) refl
