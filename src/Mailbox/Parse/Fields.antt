-- ===== src/Mailbox/Parse/Fields.antt =====
-- Looking up the headers that Encode writes.
use Prim.Native.Char.{Char, code}
use botfam.Base.{
  ℕ, String, ◌≡◌, refl, sym, ap, ◌∙◌, inl, inr, Bool, true, false, not, ◌&&◌, false≢true, [], ◌∷◌,
  ◌++◌, map, arith, ◌==◌, eq_iff, if◌then◌else◌, Bool-cases, any, All, All-append,
}
use botfam.Base.Text.{is_space}
use botfam.Base.Runes.{all_chars, starts_clean}
use botfam.Mailbox.Sanitize.{is_not_control}
use botfam.Mailbox.Message.{Headers, put}
use botfam.Mailbox.Reader.{get, same_key, trim_blank_right, is_blank_char}
use botfam.Mailbox.Reader.Trim.{is_key_char, trim_blank_right-cons}
use botfam.Mailbox.Reader.Lines.{IsWritten, read_header}

-- The headers of keys and values, those that are empty omitted.
unfoldable pub puts : Headers → Headers
unfolding put
puts [] = []
puts ((k, v) ∷ hs) = put k v ++ puts hs

-- Does the key stand among the headers exactly once?
unfoldable pub stands_once : String → Headers → Bool
unfolding same_key
stands_once key [] = false
stands_once key (h ∷ hs) =
    let rest = stands_once key hs in
    if same_key h.0 key then not (any (λ g. same_key g.0 key) hs) else rest

get-absent :
    (key : String) (hs : Headers)
    → any (λ g. same_key g.0 key) hs ≡ false
    → get key (map read_header (puts hs)) ≡ ""
unfolding any get puts put read_header
get-absent key [] h = refl
get-absent key ((k, v) ∷ hs) h = elim (Bool-cases (v == "")) [
  | inl e ↦ rw e (get-absent key hs (ground arith))
  | inr e ↦ rw (e, absent) (get-absent key hs (ground arith))
]
  where
    absent : same_key k key ≡ false
    absent = ground (arith, h)

get-put-same :
    (key k v : String) (hs : Headers)
    → same_key k key ≡ true
    → get key (map read_header hs) ≡ ""
    → get key (map read_header (put k v ++ hs)) ≡ trim_blank_right v
unfolding get put read_header trim_blank_right
get-put-same key k v hs hk h = elim (Bool-cases (v == "")) [
  | inl e ↦ rw (e, h) (sym (ap trim_blank_right ((eq_iff v "").0 e)))
  | inr e ↦ rw (e, hk) refl
]

get-put-other :
    (key k v : String) (hs : Headers)
    → same_key k key ≡ false
    → get key (map read_header (put k v ++ hs)) ≡ get key (map read_header hs)
unfolding get put read_header
get-put-other key k v hs hk = elim (Bool-cases (v == "")) [
  | inl e ↦ rw e refl
  | inr e ↦ rw (e, hk) refl
]

-- A key that stands once is found with the value that was put, without the spaces at its end.
pub get-puts :
    (key : String) (hs : Headers)
    → stands_once key hs ≡ true
    → get key (map read_header (puts hs)) ≡ trim_blank_right (get key hs)
unfolding stands_once get puts
get-puts key [] h = absurd (false≢true h)
get-puts key ((k, v) ∷ hs) h = elim (Bool-cases (same_key k key)) [
  | inl e ↦ rw e (get-put-same key k v (puts hs) e (get-absent key hs (ground arith)))
  | inr e ↦ rw e (get-put-other key k v (puts hs) e ∙ get-puts key hs (ground arith))
]

module _ (p q : ℕ → Bool) (h : (c : ℕ) → p c ≡ true → q c ≡ true) where
  pub all_chars-weaken : (s : String) → all_chars p s ≡ true → all_chars q s ≡ true
  unfolding all_chars
  all_chars-weaken String.[] hs = refl
  all_chars-weaken (String.◌∷◌ c s) hs =
      rw (h (code c) (ground arith)) (all_chars-weaken s (ground arith))

-- A graphic character: no control character of ASCII, and no space.
unfoldable pub is_graphic : ℕ → Bool
unfolding is_space is_not_control
is_graphic c = is_not_control c && not (is_space c)

graphic_char : (c : ℕ) → is_graphic c ≡ true → (is_not_control c ≡ true) × (is_space c ≡ false)
unfolding is_graphic
graphic_char c h = and-not (is_not_control c) (is_space c) h
  where
    and-not : (a b : Bool) → (a && not b) ≡ true → (a ≡ true) × (b ≡ false)
    and-not true true e = absurd (false≢true e)
    and-not true false e = (refl, refl)
    and-not false b e = absurd (false≢true e)

all_chars-head :
    (p : ℕ → Bool) (c : Char) (s : String)
    → all_chars p (String.◌∷◌ c s) ≡ true
    → (p (code c) ≡ true) × (all_chars p s ≡ true)
unfolding all_chars
all_chars-head p c s h = (ground arith, ground arith)

graphic-not_blank : (c : ℕ) → is_graphic c ≡ true → is_blank_char c ≡ false
unfolding is_graphic is_space is_blank_char
graphic-not_blank c h = ground arith

-- A value of graphic characters may be written as a header, and is read back as it is.
pub graphic_value :
    (v : String)
    → all_chars is_graphic v ≡ true
    → (all_chars is_not_control v ≡ true) × (starts_clean v ≡ true) × (trim_blank_right v ≡ v)
unfolding all_chars starts_clean trim_blank_right
graphic_value String.[] h = (refl, refl, refl)
graphic_value (String.◌∷◌ c s) h =
    let hc = all_chars-head is_graphic c s h in
    let e = graphic_char (code c) hc.0 in
    let rest = graphic_value s hc.1 in
    (
      rw (e.0, rest.0) refl,
      rw e.1 refl,
      rw (trim_blank_right-cons c s (graphic-not_blank (code c) hc.0), rest.2) refl,
    )

-- A key, and a value that may be written, or is empty.
unfoldable pub IsField : String × String → Type 0
IsField (k, v) =
    (all_chars is_key_char k ≡ true)
    × ((k == "") ≡ false)
    × (all_chars is_not_control v ≡ true)
    × (starts_clean v ≡ true)

All-put : (h : String × String) → IsField h → All IsWritten (put h.0 h.1)
unfolding put IsWritten IsField
All-put (k, v) f = elim (Bool-cases (v == "")) [
  | inl e ↦ rw e tt
  | inr e ↦ rw e ((f.0, f.1, f.2, f.3, e), tt)
]

pub All-puts : (hs : Headers) → All IsField hs → All IsWritten (puts hs)
unfolding puts
All-puts [] f = tt
All-puts ((k, v) ∷ hs) f =
    All-append IsWritten (put k v) (puts hs) (All-put (k, v) f.0) (All-puts hs f.1)
