-- ===== src/Memory.antt =====
-- internal/memory/memory.go: the facts of the shared memory, as pages of the wiki.
pub mod Slug
use Prim.Native.Char.{Char, code}
use Prim.Native.String.{◌++◌ as append}
use text.Mathlib.TextLemmas.{
  cons-append, nil-append, append-nil as text_append-nil, append_assoc as text_append_assoc,
}
use botfam.Base.{
  ℕ, zero, suc, ◌+◌, ◌-◌, ◌*◌, ◌/◌, ◌%◌, ◌^◌, ◌≤◌, ◌<◌, String, ◌≡◌, refl, sym, ap, ◌∙◌, fun_ext,
  ◌≢◌, ◌↔◌, ◌⊎◌, inl, inr, Bool, true, false, not, ◌&&◌, ◌||◌, false≢true, Option, none, some, List,
  [], ◌∷◌, ◌++◌, map, append-nil, append_assoc, arith, ◌==◌, eq_iff, eq_refl, ltb, leb, nat_eq,
  if◌then◌else◌, ltb→lt, nat_eq_iff, Bool-cases, Option-cases, Error, engine, message, Result, ok,
  err, Exec, pure, raise, continue, ◌>>=◌, ◌>>◌, ignore, Result-cases, length, any, find, filter,
  update, length-append, any-append, is_some, or_else, or_default, any-find, All, All-append,
}
use botfam.Base.Affixes.{cut_prefix}
use botfam.Base.Text.{is_space, trim_space, is_blank, join, digit, format_int}
use botfam.Base.Runes.{
  all_chars, runes, take_runes, keep_chars, fields, all_chars-append, all_chars-take_runes,
  all_chars-keep_chars, runes-take_runes-le, all_chars-trim_space, all_chars-join-fields,
  starts_clean, starts_clean-trim_space, starts_clean-take_runes,
}
use botfam.Base.Numerals.{
  ℤ, is_positive, parse_int, format_integer, parse_int-format_int, max_int64,
}
use Prim.Native.String.{compare}
use text.Mathlib.Text.{is_lt}

pub record Memory : Type 0 where
  pub title : String
  pub status : String
  pub authors : List String
  pub created : String
  pub updated : String
  pub scope : String
  pub type : String
  pub concepts : List String
  pub supersedes : List String
  pub body : String

-- strings.TrimRight(s, "\n")
keep_newline : Char → String → String
keep_newline c String.[] = if nat_eq (code c) 10 then "" else String.◌∷◌ c ""
keep_newline c (String.◌∷◌ d s) = String.◌∷◌ c (String.◌∷◌ d s)

trim_newlines : String → String
unfolding keep_newline
trim_newlines String.[] = ""
trim_newlines (String.◌∷◌ c s) = keep_newline c (trim_newlines s)

-- the first part of a text up to a separating character, and the parts after it
unfoldable pub split_parts : ℕ → String → String × List String
split_parts sep String.[] = ("", [])
split_parts sep (String.◌∷◌ c s) =
    let (part, parts) = split_parts sep s in
    if nat_eq (code c) sep then ("", part ∷ parts) else (String.◌∷◌ c part, parts)

-- strings.Split at a separator of one character
unfoldable pub split : ℕ → String → List String
unfolding split_parts
split sep s = let (part, parts) = split_parts sep s in part ∷ parts

or_text : String → String → String
or_text v default = if v == "" then default else v

field_text : String → String → List String
field_text label v = if v == "" then [] else append label v ∷ []

list_line : String → List String → String
unfolding join
list_line label [] = ""
list_line label (x ∷ xs) = append label (append (join ", " (x ∷ xs)) "\n")

-- Memory.Render
unfoldable pub render : Memory → String
unfolding trim_space or_text field_text join list_line trim_newlines
render m =
    let fields =
      append "Status: **" (append (or_text m.status "Live") "**") ∷ []
      ++ (elim m.authors [ [] ↦ [] | a ∷ rest ↦ append "Authors: " (join ", " (a ∷ rest)) ∷ [] ])
      ++ field_text "Created: " m.created
      ++ field_text "Updated: " m.updated
      ++ field_text "Scope: " m.scope
      ++ field_text "Type: " m.type in
    let body = trim_newlines m.body in
    append "# " (
      append (trim_space m.title) (
        append "\n\n" (
          append (join " · " fields) (
            append "\n" (
              append (list_line "Concepts: " m.concepts) (
                append (list_line "Supersedes: " m.supersedes)
                  (if body == "" then "" else append "\n" (append body "\n"))))))))

-- splitList
unfoldable pub split_list : String → List String
unfolding split trim_space filter
split_list s = filter (λ p. not (p == "")) (map trim_space (split 44 s))

is_star : ℕ → Bool
is_star c = nat_eq c 42 || nat_eq c 32

trim_stars_left : String → String
unfolding is_star
trim_stars_left String.[] = ""
trim_stars_left (String.◌∷◌ c s) =
    let rest = trim_stars_left s in if is_star (code c) then rest else String.◌∷◌ c s

keep_star : Char → String → String
unfolding is_star
keep_star c String.[] = if is_star (code c) then "" else String.◌∷◌ c ""
keep_star c (String.◌∷◌ d s) = String.◌∷◌ c (String.◌∷◌ d s)

trim_stars_right : String → String
unfolding keep_star
trim_stars_right String.[] = ""
trim_stars_right (String.◌∷◌ c s) = keep_star c (trim_stars_right s)

-- strings.Cut(field, ":")
in_part : Char → Option (String × String) → Option (String × String)
in_part c none = none
in_part c (some (k, v)) = some (String.◌∷◌ c k, v)

cut_field : String → Option (String × String)
unfolding in_part
cut_field String.[] = none
cut_field (String.◌∷◌ c s) =
    let rest = in_part c (cut_field s) in if nat_eq (code c) 58 then some ("", s) else rest

set_field : String → String → Memory → Memory
unfolding split_list trim_stars_left trim_stars_right
set_field key val m =
    if key == "Status"
    then record m { status = trim_stars_right (trim_stars_left val) }
    else if key == "Authors"
    then record m { authors = split_list val }
    else if key == "Created"
    then record m { created = val }
    else if key == "Updated"
    then record m { updated = val }
    else if key == "Scope"
    then record m { scope = val }
    else if key == "Type"
    then record m { type = val }
    else m

apply_field : Option (String × String) → Memory → Memory
unfolding set_field trim_space
apply_field none m = m
apply_field (some (key, val)) m = set_field (trim_space key) (trim_space val) m

apply_fields : List String → Memory → Memory
unfolding apply_field cut_field trim_space
apply_fields [] m = m
apply_fields (field ∷ fields) m = apply_fields fields (apply_field (cut_field (trim_space field)) m)

-- applyBanner; the separator is the middle dot
unfoldable pub apply_banner : String → Memory → Memory
unfolding apply_fields split
apply_banner banner m = apply_fields (split 183 banner) m

empty_memory : Memory
empty_memory = record {
  title = "";
  status = "";
  authors = [];
  created = "";
  updated = "";
  scope = "";
  type = "";
  concepts = [];
  supersedes = [];
  body = "";
}

-- the first H1, and the lines after it
find_title : List String → String × List String
unfolding cut_prefix trim_space
find_title [] = ("", [])
find_title (line ∷ lines) = elim (cut_prefix "# " line) [
  | none ↦ find_title lines
  | some t ↦ (trim_space t, lines)
]

skip_blank : List String → List String
unfolding is_blank
skip_blank [] = []
skip_blank (line ∷ lines) =
    let rest = skip_blank lines in if is_blank line then rest else line ∷ lines

-- the header block: the parts of the banner, the lists that have lines of their own, and what follows
header_line : String → List String × Memory → List String × Memory
unfolding cut_prefix split_list
header_line line (parts, m) = elim (cut_prefix "Concepts:" line) [
  | some v ↦ (parts, record m { concepts = split_list v })
  | none ↦ elim (cut_prefix "Supersedes:" line) [
    | some v ↦ (parts, record m { supersedes = split_list v })
    | none ↦ (parts ++ line ∷ [], m)
  ]
]

header_block : List String → List String × Memory → (List String × Memory) × List String
unfolding header_line is_blank trim_space
header_block [] pm = (pm, [])
header_block (line ∷ lines) pm = elim (is_blank line) [
  | true ↦ (pm, line ∷ lines)
  | false ↦ header_block lines (header_line (trim_space line) pm)
]

-- Parse
unfoldable pub parse : String → Result Memory
unfolding split find_title header_block apply_banner skip_blank join trim_newlines empty_memory
parse data_text =
    let (title, lines) = find_title (split 10 data_text) in
    let ((parts, m), rest) =
      header_block (skip_blank lines) ([], record empty_memory { title = title }) in
    let m' = apply_banner (join " · " parts) m in
    if title == ""
    then err (message "memory page has no H1 title")
    else ok (record m' { body = trim_newlines (join "\n" (skip_blank rest)) })

unfoldable pub valid_scope : String → Bool
valid_scope s = s == "personal" || s == "fam" || s == "cross-fam"

unfoldable pub valid_type : String → Bool
valid_type t = t == "user" || t == "feedback" || t == "project" || t == "reference"

no_authors : List String → Bool
no_authors [] = true
no_authors (a ∷ rest) = false

-- Memory.Validate, without the title that its messages name; none stands for nil
unfoldable pub validate : Memory → Option Error
unfolding is_blank no_authors valid_scope valid_type
validate m =
    if is_blank m.title
    then some (message "memory requires a title")
    else if is_blank m.body
    then some (message "memory requires a body")
    else if no_authors m.authors
    then some (message "memory requires at least one author")
    else if m.created == ""
    then some (message "memory requires a Created date")
    else if not (m.scope == "") && not (valid_scope m.scope)
    then some (message "memory has invalid scope")
    else if not (m.type == "") && not (valid_type m.type)
    then some (message "memory has invalid type")
    else none

unfoldable pub is_slug_char : ℕ → Bool
is_slug_char r = (leb 97 r && leb r 122) || (leb 48 r && leb r 57)

-- the loop of Slug; `prev` is prevHyphen
unfoldable pub hyphenate : Bool → String → String
unfolding is_slug_char
hyphenate prev String.[] = ""
hyphenate prev (String.◌∷◌ c s) =
    let rest = hyphenate (not (is_slug_char (code c))) s in
    if is_slug_char (code c) then String.◌∷◌ c rest else if prev then rest else String.◌∷◌ "-" rest

trim_hyphens_left : String → String
trim_hyphens_left String.[] = ""
trim_hyphens_left (String.◌∷◌ c s) =
    let rest = trim_hyphens_left s in if nat_eq (code c) 45 then rest else String.◌∷◌ c s

keep_hyphen : Char → String → String
keep_hyphen c String.[] = if nat_eq (code c) 45 then "" else String.◌∷◌ c ""
keep_hyphen c (String.◌∷◌ d s) = String.◌∷◌ c (String.◌∷◌ d s)

trim_hyphens_right : String → String
unfolding keep_hyphen
trim_hyphens_right String.[] = ""
trim_hyphens_right (String.◌∷◌ c s) = keep_hyphen c (trim_hyphens_right s)

with_prefix : String → Option String → String
with_prefix slug none = append "memory-" slug
with_prefix slug (some rest) = slug

-- Slug; `to_lower` is strings.ToLower, with Go's tables of Unicode
unfoldable pub slug : (String → String) → String → String
unfolding trim_space hyphenate trim_hyphens_left trim_hyphens_right with_prefix cut_prefix
slug to_lower title =
    let s =
      trim_hyphens_right (trim_hyphens_left (hyphenate false (to_lower (trim_space title)))) in
    if s == "" then "" else with_prefix s (cut_prefix "memory-" s)

insert_text : String → List String → List String
insert_text x [] = x ∷ []
insert_text x (y ∷ ys) =
    let rest = insert_text x ys in if is_lt (compare y x) then y ∷ rest else x ∷ y ∷ ys

-- the authors that are new among those collected
distinct : List String → List String → List String
unfolding trim_space any
distinct seen [] = seen
distinct seen (a ∷ rest) =
    let name = trim_space a in
    distinct
      (if not (name == "") && not (any (λ s. s == name) seen) then seen ++ name ∷ [] else seen) rest

sort_texts : List String → List String
unfolding insert_text
sort_texts [] = []
sort_texts (x ∷ xs) = insert_text x (sort_texts xs)

-- SortAuthors
unfoldable pub sort_authors : List String → List String
unfolding distinct sort_texts
sort_authors authors = sort_texts (distinct [] authors)

page : Memory
page = record empty_memory {
  title = "A fact";
  status = "Live";
  authors = "x" ∷ "y" ∷ [];
  created = "2026-01-02";
  concepts = "c" ∷ [];
  body = "text\nmore";
}

parse-render_test : parse (render page) ≡ ok page
unfolding parse render page
parse-render_test = refl

slug_test : slug (λ s. s) "a fact,  (new)" ≡ "memory-a-fact-new"
unfolding slug
slug_test = refl
