-- ===== src/Observe/Subject.antt =====
-- internal/eventdelivery/observe/bootstrap.go: the artifact that a notification is about.
use Prim.Native.Char.{Char, code}
use Prim.Native.String.{◌++◌ as append}
use botfam.Base.{
  ℕ, ◌+◌, ◌-◌, ◌*◌, ◌^◌, Bool, ◌&&◌, Option, none, some, String, ◌==◌, ltb, leb, nat_eq, or_else,
  if◌then◌else◌,
}
use botfam.Base.Text.{trim_space, format_int}
use botfam.Observe.{kind_issue, kind_pull, source_forge}

-- forge.Notification, as far as the package reads it
pub record Notification : Type 0 where
  pub id : ℕ
  pub unread : Bool
  pub updated : String
  pub repository_full_name : String
  pub subject_type : String
  pub subject_title : String
  pub subject_state : String
  pub subject_url : String
  pub subject_html_url : String

unfoldable pub subject_kind : String → String
subject_kind t = if t == "Issue" then kind_issue else if t == "Pull" then kind_pull else ""

is_digit : Char → Bool
is_digit c = leb 48 (code c) && leb (code c) 57

-- the value of the digits at the front of a text, after those that are read
digits_value : String → ℕ → ℕ
unfolding is_digit
digits_value String.[] n = n
digits_value (String.◌∷◌ c s) n =
    let rest = digits_value s (n * 10 + (code c - 48)) in if is_digit c then rest else n

-- (\d+) at the front of a text
front_digits : String → Option ℕ
unfolding is_digit digits_value
front_digits String.[] = none
front_digits (String.◌∷◌ c s) = if is_digit c then some (digits_value (String.◌∷◌ c s) 0) else none

-- the text after a prefix, and the digits there
after_prefix : String → String → Option ℕ
unfolding front_digits
after_prefix String.[] s = front_digits s
after_prefix (String.◌∷◌ c p) String.[] = none
after_prefix (String.◌∷◌ c p) (String.◌∷◌ d s) =
    let rest = after_prefix p s in if nat_eq (code c) (code d) then rest else none

-- the first match of `/(issues|pulls)/(\d+)`, as the value of its digits
first_match : String → Option ℕ
unfolding after_prefix
first_match String.[] = none
first_match (String.◌∷◌ c s) =
    or_else (after_prefix "/issues/" (String.◌∷◌ c s))
      (or_else (after_prefix "/pulls/" (String.◌∷◌ c s)) (first_match s))

-- strconv.ParseInt in 64 bits
abbrev in_int64 : Option ℕ → Option ℕ
in_int64 none = none
in_int64 (some n) = if ltb n (2 ^ 63) then some n else none

abbrev or_zero : Option ℕ → ℕ
or_zero none = 0
or_zero (some n) = n

unfoldable pub subject_number : Notification → ℕ
unfolding first_match
subject_number t =
    or_zero
      (or_else (in_int64 (first_match t.subject_url)) (in_int64 (first_match t.subject_html_url)))

abbrev pub repo_slug : Notification → String
repo_slug t = if t.repository_full_name == "" then source_forge else t.repository_full_name

unfoldable pub notification_key : Notification → String
notification_key t =
    let u = trim_space t.updated in if u == "" then append "thread-" (format_int t.id) else u
