-- ===== src/Memory/Slug.antt =====
-- internal/memory/memory.go: the form of a slug.
use Prim.Native.Char.{Char, code}
use Prim.Native.String.{◌++◌ as append}
use text.Mathlib.TextLemmas.{cons-append, nil-append}
use botfam.Base.{
  ℕ, String, ◌≡◌, refl, sym, ◌∙◌, ◌⊎◌, inl, inr, Bool, true, false, not, ◌||◌, false≢true, Option,
  none, some, arith, ◌==◌, nat_eq, Bool-cases,
}
use botfam.Base.Affixes.{cut_prefix}
use botfam.Base.Text.{trim_space, cons_not_empty}
use botfam.Base.Runes.{all_chars, all_chars-append}
use botfam.Memory.{
  slug, is_slug_char, hyphenate, trim_hyphens_left, keep_hyphen, trim_hyphens_right, with_prefix,
}

-- A character of a page's name: a small letter, a digit or a hyphen.
unfoldable pub is_page_char : ℕ → Bool
is_page_char c = is_slug_char c || nat_eq c 45

all_chars-hyphenate : (prev : Bool) (s : String) → all_chars is_page_char (hyphenate prev s) ≡ true
unfolding all_chars hyphenate is_page_char is_slug_char
all_chars-hyphenate prev String.[] = refl
all_chars-hyphenate prev (String.◌∷◌ c s) =
    ground (arith, all_chars-hyphenate (not (is_slug_char (code c))) s)

module _ (p : ℕ → Bool) where
  all_chars-trim_left :
      (s : String) → all_chars p s ≡ true → all_chars p (trim_hyphens_left s) ≡ true
  unfolding all_chars trim_hyphens_left
  all_chars-trim_left String.[] h = refl
  all_chars-trim_left (String.◌∷◌ c s) h = ground (arith, all_chars-trim_left s)

  all_chars-keep :
      (c : Char) (s : String)
      → p (code c) ≡ true
      → all_chars p s ≡ true
      → all_chars p (keep_hyphen c s) ≡ true
  unfolding all_chars keep_hyphen
  all_chars-keep c String.[] hc h = elim (Bool-cases (nat_eq (code c) 45)) [
    | inl e ↦ rw e refl
    | inr e ↦ rw (e, hc) refl
  ]
  all_chars-keep c (String.◌∷◌ d s) hc h = rw hc h

  all_chars-trim_right :
      (s : String) → all_chars p s ≡ true → all_chars p (trim_hyphens_right s) ≡ true
  unfolding all_chars trim_hyphens_right
  all_chars-trim_right String.[] h = refl
  all_chars-trim_right (String.◌∷◌ c s) h =
      all_chars-keep c (trim_hyphens_right s) (ground arith) (all_chars-trim_right s (ground arith))

-- Does the text end with something else than a hyphen?
unfoldable pub ends_clean : String → Bool
ends_clean String.[] = true
ends_clean (String.◌∷◌ c String.[]) = not (nat_eq (code c) 45)
ends_clean (String.◌∷◌ c (String.◌∷◌ d s)) = ends_clean (String.◌∷◌ d s)

ends_clean-keep :
    (c : Char) (s : String) → ends_clean s ≡ true → ends_clean (keep_hyphen c s) ≡ true
unfolding ends_clean keep_hyphen
ends_clean-keep c String.[] h = elim (Bool-cases (nat_eq (code c) 45)) [
  | inl e ↦ rw e refl
  | inr e ↦ rw (e, e) refl
]
ends_clean-keep c (String.◌∷◌ d s) h = h

ends_clean-trim_right : (s : String) → ends_clean (trim_hyphens_right s) ≡ true
unfolding ends_clean trim_hyphens_right
ends_clean-trim_right String.[] = refl
ends_clean-trim_right (String.◌∷◌ c s) =
    ends_clean-keep c (trim_hyphens_right s) (ends_clean-trim_right s)

cut_prefix-append : (t s : String) → cut_prefix t (append t s) ≡ some s
unfolding cut_prefix
cut_prefix-append String.[] s = rw (nil-append s) refl
cut_prefix-append (String.◌∷◌ d t) s =
    rw (cons-append d t s) (ground (arith, cut_prefix-append t s))

ends_clean-cons :
    (c : Char) (s : String) → (s == "") ≡ false → ends_clean (String.◌∷◌ c s) ≡ ends_clean s
unfolding ends_clean
ends_clean-cons c String.[] h = absurd (false≢true (sym h))
ends_clean-cons c (String.◌∷◌ d s) h = refl

append_not_empty : (t s : String) → (s == "") ≡ false → (append t s == "") ≡ false
append_not_empty String.[] s h = rw (nil-append s) h
append_not_empty (String.◌∷◌ c t) s h = rw (cons-append c t s) (cons_not_empty c (append t s))

ends_clean-append : (t s : String) → (s == "") ≡ false → ends_clean (append t s) ≡ ends_clean s
ends_clean-append String.[] s h = rw (nil-append s) refl
ends_clean-append (String.◌∷◌ c t) s h =
    rw (cons-append c t s, ends_clean-cons c (append t s) (append_not_empty t s h))
      (ends_clean-append t s h)

prefix-page_chars : all_chars is_page_char "memory-" ≡ true
unfolding all_chars is_page_char is_slug_char
prefix-page_chars = refl

-- The form of a slug: it begins with memory-, has page characters only, and ends with no hyphen.
unfoldable pub IsPageName : String → Type 0
IsPageName s =
    ((rest : String) × (cut_prefix "memory-" s ≡ some rest))
    × (all_chars is_page_char s ≡ true)
    × (ends_clean s ≡ true)

with_prefix-IsPageName :
    (s : String) (o : Option String)
    → cut_prefix "memory-" s ≡ o
    → (s == "") ≡ false
    → all_chars is_page_char s ≡ true
    → ends_clean s ≡ true
    → IsPageName (with_prefix s o)
unfolding IsPageName with_prefix
with_prefix-IsPageName s none e hn h he = (
  (s, cut_prefix-append "memory-" s),
  rw (all_chars-append is_page_char "memory-" s, prefix-page_chars, h) refl,
  ends_clean-append "memory-" s hn ∙ he,
)
with_prefix-IsPageName s (some rest) e hn h he = ((rest, e), h, he)

chars :
    (s : String)
    → all_chars is_page_char (trim_hyphens_right (trim_hyphens_left (hyphenate false s))) ≡ true
chars s =
    all_chars-trim_right is_page_char (trim_hyphens_left (hyphenate false s))
      (all_chars-trim_left is_page_char (hyphenate false s) (all_chars-hyphenate false s))

-- The slug of a title is empty, or the name of a page under the prefix memory-.
pub slug-IsPageName :
    (to_lower : String → String) (title : String)
    → (slug to_lower title ≡ "") ⊎ IsPageName (slug to_lower title)
unfolding slug
slug-IsPageName to_lower title =
    let s =
      trim_hyphens_right (trim_hyphens_left (hyphenate false (to_lower (trim_space title)))) in
    elim (Bool-cases (s == "")) [
      | inl e ↦ inl (rw e refl)
      | inr e ↦ inr (
          rw e (
            with_prefix-IsPageName s (cut_prefix "memory-" s) refl e
              (chars (to_lower (trim_space title)))
              (ends_clean-trim_right
                (trim_hyphens_left (hyphenate false (to_lower (trim_space title)))))))
    ]
