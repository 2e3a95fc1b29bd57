-- ===== src/Forge/Scope.antt =====
-- internal/forge/scope.go: TaskRefs, MentionRefs and SelectIssues.
pub mod Epics
use Prim.Native.Char.{Char, code}
use Prim.Native.String.{◌++◌ as append}
use text.Mathlib.TextLemmas.{
  cons-append, nil-append, append-nil as text_append-nil, append_assoc as text_append_assoc,
}
use botfam.Base.{
  ℕ, zero, suc, ◌+◌, ◌-◌, ◌*◌, ◌/◌, ◌%◌, ◌^◌, ◌≤◌, ◌<◌, String, ◌≡◌, refl, sym, ap, ◌∙◌, fun_ext,
  ◌≢◌, ◌↔◌, ◌⊎◌, inl, inr, Bool, true, false, not, ◌&&◌, ◌||◌, false≢true, Option, none, some, List,
  [], ◌∷◌, ◌++◌, map, append-nil, append_assoc, arith, ◌==◌, eq_iff, eq_refl, ltb, leb, nat_eq,
  if◌then◌else◌, ltb→lt, nat_eq_iff, Bool-cases, Option-cases, Error, engine, message, Result, ok,
  err, Exec, pure, raise, continue, ◌>>=◌, ◌>>◌, ignore, Result-cases, length, any, find, filter,
  update, length-append, any-append, is_some, or_else, or_default, any-find, All, All-append,
}
use botfam.Base.Text.{is_space, trim_space, is_blank, join, digit, format_int}
use botfam.Base.Runes.{
  all_chars, runes, take_runes, keep_chars, fields, all_chars-append, all_chars-take_runes,
  all_chars-keep_chars, runes-take_runes-le, all_chars-trim_space, all_chars-join-fields,
  starts_clean, starts_clean-trim_space, starts_clean-take_runes,
}
use botfam.Base.Numerals.{
  is_digit, ℤ, is_positive, parse_int, format_integer, parse_int-format_int, max_int64,
}
use botfam.Forge.Closure.{has, collect}

-- forge.Issue; `is_pull` says that it is a pull request
pub record Issue : Type 0 where
  pub index : ℕ
  pub title : String
  pub state : String
  pub body : String
  pub labels : List String
  pub milestone : Option String
  pub is_pull : Bool

pub record Scope : Type 0 where
  pub milestone : String
  pub label : String
  pub epic : ℕ

-- the class \s of a regular expression
is_regex_space : ℕ → Bool
is_regex_space c = nat_eq c 9 || nat_eq c 10 || nat_eq c 12 || nat_eq c 13 || nat_eq c 32

skip_spaces : String → String
unfolding is_regex_space
skip_spaces String.[] = ""
skip_spaces (String.◌∷◌ c s) =
    let rest = skip_spaces s in if is_regex_space (code c) then rest else String.◌∷◌ c s

-- what follows a character that passes the test
after_char : (ℕ → Bool) → String → Option String
after_char p String.[] = none
after_char p (String.◌∷◌ c s) = if p (code c) then some s else none

leading_digits : String → String
unfolding is_digit
leading_digits String.[] = ""
leading_digits (String.◌∷◌ c s) =
    let rest = leading_digits s in if is_digit (code c) then String.◌∷◌ c rest else ""

-- fmt.Sscanf(…, "%d"): a number that does not fit stays 0, and numbers are positive
positive : Option ℤ → Option ℕ
positive (some (ℤ.pos (suc n))) = some (suc n)
positive _ = none

-- the group (\d+)
number_at : String → Option ℕ
unfolding leading_digits parse_int positive
number_at s = positive (parse_int (leading_digits s))

then_at : Option String → (String → Option String) → Option String
then_at none f = none
then_at (some s) f = f s

-- taskRefRe at the start of a line
unfoldable pub task_ref_at : String → Option ℕ
unfolding skip_spaces after_char then_at number_at
task_ref_at s =
    let bullet = after_char (λ c. nat_eq c 45 || nat_eq c 42) (skip_spaces s) in
    let opened = then_at bullet (λ t. after_char (λ c. nat_eq c 91) (skip_spaces t)) in
    let marked = then_at opened (after_char (λ c. nat_eq c 32 || nat_eq c 120 || nat_eq c 88)) in
    let closed = then_at marked (after_char (λ c. nat_eq c 93)) in
    let hash = then_at closed (λ t. after_char (λ c. nat_eq c 35) (skip_spaces t)) in
    elim hash [ none ↦ none | some t ↦ number_at t ]

insert_ref : Option ℕ → List ℕ → List ℕ
unfolding has
insert_ref none refs = refs
insert_ref (some n) refs = if has n refs then refs else n ∷ refs

-- the references of the lines that start in the text; `starts` says that one starts in front of it
refs_from : Bool → String → List ℕ
unfolding task_ref_at insert_ref
refs_from starts String.[] = []
refs_from starts (String.◌∷◌ c s) =
    let rest = refs_from (nat_eq (code c) 10) s in
    if starts then insert_ref (task_ref_at (String.◌∷◌ c s)) rest else rest

-- TaskRefs
unfoldable pub task_refs : String → List ℕ
unfolding refs_from
task_refs body = refs_from true body

-- MentionRefs
unfoldable pub mention_refs : String → List ℕ
unfolding insert_ref number_at
mention_refs String.[] = []
mention_refs (String.◌∷◌ c s) =
    let rest = mention_refs s in if nat_eq (code c) 35 then insert_ref (number_at s) rest else rest

-- the map byNum: of two issues with a number the last one counts
unfoldable pub by_num : List Issue → ℕ → Option Issue
by_num [] n = none
by_num (i ∷ issues) n = or_else (by_num issues n) (if nat_eq i.index n then some i else none)

unfoldable pub refs_of : Option Issue → List ℕ
unfolding task_refs
refs_of none = []
refs_of (some i) = task_refs i.body

-- the children of a number, by the task list of its issue
unfoldable pub children_of : List Issue → ℕ → List ℕ
unfolding by_num refs_of
children_of issues n = refs_of (by_num issues n)

-- The references of the issues that are not seen yet: they bound the rounds of the loop.
unfoldable pub unseen_refs : List Issue → List ℕ → ℕ
unfolding has task_refs
unseen_refs [] seen = 0
unseen_refs (i ∷ issues) seen =
    (if has i.index seen then 0 else length (task_refs i.body)) + unseen_refs issues seen

-- the case sc.Epic > 0 of SelectIssues
unfoldable pub epic_closure : List Issue → ℕ → Option (List ℕ)
unfolding collect children_of unseen_refs
epic_closure issues epic = collect (children_of issues) (unseen_refs issues [] + 2) (epic ∷ []) []

indexes : (Issue → Bool) → List Issue → List ℕ
unfolding filter
indexes p issues = map (λ i. i.index) (filter p issues)

is_milestone : String → Option String → Bool
is_milestone title none = false
is_milestone title (some t) = t == title

-- SelectIssues; none is the nil of the full history
unfoldable pub select_issues : List Issue → Scope → Option (List ℕ)
unfolding epic_closure indexes is_milestone any
select_issues issues sc =
    if ltb 0 sc.epic
    then epic_closure issues sc.epic
    else if not (sc.milestone == "")
    then some (indexes (λ i. is_milestone sc.milestone i.milestone) issues)
    else if not (sc.label == "")
    then some (indexes (λ i. any (λ l. l == sc.label) i.labels) issues)
    else none

-- Scope.String
unfoldable pub scope_string : Scope → String
unfolding format_int
scope_string sc =
    if ltb 0 sc.epic
    then append "epic #" (format_int sc.epic)
    else if not (sc.milestone == "")
    then append "milestone " sc.milestone
    else if not (sc.label == "")
    then append "label " sc.label
    else "all"
