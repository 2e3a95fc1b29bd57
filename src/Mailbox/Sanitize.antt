-- ===== src/Mailbox/Sanitize.antt =====
-- The cleaning of header values in internal/mailbox/message.go.
use Prim.Native.Char.{code}
use botfam.Base.{
  ℕ, ◌≤◌, ◌<◌, String, ◌≡◌, refl, Bool, true, not, ◌&&◌, ◌||◌, arith, ltb, leb, nat_eq,
  if◌then◌else◌,
}
use botfam.Base.Text.{trim_space, join}
use botfam.Base.Runes.{
  all_chars, runes, take_runes, keep_chars, fields, all_chars-take_runes, all_chars-keep_chars,
  runes-take_runes-le, all_chars-trim_space, all_chars-join-fields, starts_clean,
  starts_clean-trim_space, starts_clean-take_runes,
}

-- carriage return, newline and tab become spaces, the other control characters go
fold_controls : String → String
fold_controls String.[] = String.[]
fold_controls (String.◌∷◌ c s) =
    let rest = fold_controls s in
    if nat_eq (code c) 13 || nat_eq (code c) 10 || nat_eq (code c) 9
    then String.◌∷◌ " " rest
    else if ltb (code c) 32 || nat_eq (code c) 127
    then rest
    else String.◌∷◌ c rest

unfoldable pub collapse_spaces : String → String
unfolding join fields
collapse_spaces s = join " " (fields s)

unfoldable pub truncate_runes : String → ℕ → String
unfolding runes take_runes
truncate_runes s max = if leb max 0 then s else if leb (runes s) max then s else take_runes max s

unfoldable pub sanitize_header_value : String → ℕ → String
unfolding fold_controls collapse_spaces truncate_runes trim_space
sanitize_header_value s max = truncate_runes (trim_space (collapse_spaces (fold_controls s))) max

unfoldable pub is_name_char : ℕ → Bool
is_name_char r =
    (leb 97 r && leb r 122)
    || (leb 65 r && leb r 90)
    || (leb 48 r && leb r 57)
    || nat_eq r 95
    || nat_eq r 45
    || nat_eq r 46
    || nat_eq r 35

abbrev pub max_subject_len : ℕ
max_subject_len = 120

abbrev pub max_name_len : ℕ
max_name_len = 64

abbrev pub max_value_len : ℕ
max_value_len = 256

unfoldable pub sanitize_name : String → String
unfolding is_name_char keep_chars truncate_runes
sanitize_name s = truncate_runes (keep_chars is_name_char s) max_name_len

-- No control character of ASCII; those of U+0080 to U+009F pass.
unfoldable pub is_not_control : ℕ → Bool
is_not_control c = leb 32 c && not (nat_eq c 127)

all_chars-fold_controls : (s : String) → all_chars is_not_control (fold_controls s) ≡ true
unfolding all_chars fold_controls is_not_control
all_chars-fold_controls String.[] = refl
all_chars-fold_controls (String.◌∷◌ c s) = ground (arith, all_chars-fold_controls s)

module _ (p : ℕ → Bool) where
  all_chars-truncate_runes :
      (s : String) (max : ℕ) → all_chars p s ≡ true → all_chars p (truncate_runes s max) ≡ true
  unfolding truncate_runes
  all_chars-truncate_runes s max h = ground (arith, all_chars-take_runes p max s h)

runes-truncate_runes-le : (s : String) (max : ℕ) → 0 < max → runes (truncate_runes s max) ≤ max
unfolding truncate_runes
runes-truncate_runes-le s max h = ground (arith, runes-take_runes-le max s)

all_chars-space : all_chars is_not_control " " ≡ true
unfolding all_chars is_not_control
all_chars-space = refl

starts_clean-truncate_runes :
    (s : String) (max : ℕ) → starts_clean s ≡ true → starts_clean (truncate_runes s max) ≡ true
unfolding truncate_runes
starts_clean-truncate_runes s max h = ground (arith, starts_clean-take_runes max s h)

-- What is left of a cleaned header value of at most `max` runes, `max` not zero: no control
-- character of ASCII (none below U+0020, and not U+007F), not more runes than that, and no space in front.
pub sanitize_header_value_lem :
    (s : String) (max : ℕ)
    → 0 < max
    → (all_chars is_not_control (sanitize_header_value s max) ≡ true)
      × (runes (sanitize_header_value s max) ≤ max)
      × (starts_clean (sanitize_header_value s max) ≡ true)
unfolding sanitize_header_value collapse_spaces
sanitize_header_value_lem s max h =
    let text = collapse_spaces (fold_controls s) in
    (
      all_chars-truncate_runes is_not_control (trim_space text) max (
          all_chars-trim_space is_not_control text (
            all_chars-join-fields is_not_control " " (fold_controls s) all_chars-space
              (all_chars-fold_controls s))),
      runes-truncate_runes-le (trim_space text) max h,
      starts_clean-truncate_runes (trim_space text) max (starts_clean-trim_space text),
    )

-- What is left of a name: name characters only, 64 of them at most.
pub sanitize_name_lem :
    (s : String)
    → (all_chars is_name_char (sanitize_name s) ≡ true) × (runes (sanitize_name s) ≤ max_name_len)
unfolding sanitize_name
sanitize_name_lem s = (
  all_chars-truncate_runes is_name_char (keep_chars is_name_char s) max_name_len
      (all_chars-keep_chars is_name_char s),
  runes-truncate_runes-le (keep_chars is_name_char s) max_name_len (ground arith),
)
