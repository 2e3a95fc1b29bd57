-- ===== src/Mailbox/Reader.antt =====
-- The reader of net/mail that ParseMessage uses: ReadMessage, and Header.Get.
pub mod Trim
pub mod Lines
use Prim.Native.Char.{Char, code}
use Prim.Native.String.{◌++◌ as append}
use text.Mathlib.TextLemmas.{
  cons-append, nil-append, append-nil as text_append-nil, append_assoc as text_append_assoc,
}
use botfam.Base.{
  ℕ, zero, suc, ◌+◌, ◌-◌, ◌*◌, ◌/◌, ◌%◌, ◌^◌, ◌≤◌, ◌<◌, String, ◌≡◌, refl, sym, ap, ◌∙◌, fun_ext,
  ◌≢◌, ◌↔◌, ◌⊎◌, inl, inr, Bool, true, false, not, ◌&&◌, ◌||◌, false≢true, Option, none, some, List,
  [], ◌∷◌, ◌++◌, map, append-nil, append_assoc, arith, ◌==◌, eq_iff, eq_refl, ltb, leb, nat_eq,
  if◌then◌else◌, ltb→lt, nat_eq_iff, Bool-cases, Option-cases, Error, engine, message, Result, ok,
  err, Exec, pure, raise, continue, ◌>>=◌, ◌>>◌, ignore, Result-cases, length, any, find, filter,
  update, length-append, any-append, is_some, or_else, any-find, All, All-append,
}
use botfam.Base.Text.{is_space, trim_space, is_blank, join, digit, format_int}
use botfam.Base.Runes.{
  all_chars, runes, take_runes, keep_chars, fields, all_chars-append, all_chars-take_runes,
  all_chars-keep_chars, runes-take_runes-le, all_chars-trim_space, all_chars-join-fields,
  starts_clean, starts_clean-trim_space, starts_clean-take_runes,
}
use botfam.Base.Numerals.{
  ℤ, is_positive, parse_int, format_integer, parse_int-format_int, max_int64,
}
use botfam.Mailbox.Message.{Headers}

-- A line without its end, and what stands after it.
pub record Line : Type 0 where
  pub text : String
  pub after : String

starts_newline : String → Bool
starts_newline String.[] = false
starts_newline (String.◌∷◌ c s) = nat_eq (code c) 10

-- A character in front of the first of the lines.
add_char : Char → List Line → List Line
add_char c [] = record { text = String.◌∷◌ c ""; after = "" } ∷ []
add_char c (l ∷ ls) = record { text = String.◌∷◌ c l.text; after = l.after } ∷ ls

-- textproto.Reader.ReadLine, over and over: lines end with a newline or with both characters
unfoldable pub lines : String → List Line
unfolding add_char starts_newline
lines String.[] = []
lines (String.◌∷◌ c s) =
    let rest = lines s in
    if nat_eq (code c) 10
    then record { text = ""; after = s } ∷ rest
    else if nat_eq (code c) 13 && starts_newline s
    then rest
    else add_char c rest

unfoldable pub is_blank_char : ℕ → Bool
is_blank_char c = nat_eq c 32 || nat_eq c 9

-- strings.TrimLeft(v, " \t")
unfoldable pub trim_blank_left : String → String
unfolding is_blank_char
trim_blank_left String.[] = ""
trim_blank_left (String.◌∷◌ c s) =
    let rest = trim_blank_left s in if is_blank_char (code c) then rest else String.◌∷◌ c s

keep_blank : Char → String → String
unfolding is_blank_char
keep_blank c String.[] = if is_blank_char (code c) then "" else String.◌∷◌ c ""
keep_blank c (String.◌∷◌ d s) = String.◌∷◌ c (String.◌∷◌ d s)

unfoldable pub trim_blank_right : String → String
unfolding keep_blank
trim_blank_right String.[] = ""
trim_blank_right (String.◌∷◌ c s) = keep_blank c (trim_blank_right s)

-- textproto's trim
unfoldable pub trim_blank : String → String
unfolding trim_blank_left trim_blank_right
trim_blank s = trim_blank_right (trim_blank_left s)

unfoldable pub starts_blank : String → Bool
unfolding is_blank_char
starts_blank String.[] = false
starts_blank (String.◌∷◌ c s) = is_blank_char (code c)

in_key : Char → Option (String × String) → Option (String × String)
in_key c none = none
in_key c (some (k, v)) = some (String.◌∷◌ c k, v)

-- strings.Cut(kv, ":")
unfoldable pub cut_colon : String → Option (String × String)
unfolding in_key
cut_colon String.[] = none
cut_colon (String.◌∷◌ c s) =
    let rest = in_key c (cut_colon s) in if nat_eq (code c) 58 then some ("", s) else rest

-- a line with an empty key is skipped
header_of : Option (String × String) → Headers → Result Headers
unfolding trim_blank_left
header_of none hs = err (message "malformed header line")
header_of (some (k, v)) hs = ok (if k == "" then hs else hs ++ (k, trim_blank_left v) ∷ [])

-- A header line, its continuation lines joined to it.
unfoldable pub add_header : String → Headers → Result Headers
unfolding cut_colon header_of
add_header kv hs = header_of (cut_colon kv) hs

-- the end of the input: an error, unless there are headers
at_end : Headers → Result (Headers × String)
at_end [] = err (message "EOF")
at_end (h ∷ hs) = ok (h ∷ hs, "")

-- The headers of the lines that follow the header line `kv`, and the text behind them.
read_after : String → Headers → List Line → Result (Headers × String)
unfolding add_header at_end trim_blank starts_blank
read_after kv hs [] = elim (add_header kv hs) [ ok hs' ↦ at_end hs' | err e ↦ err e ]
read_after kv hs (l ∷ ls) = elim (starts_blank l.text) [
  | true ↦ read_after (append kv (append " " (trim_blank l.text))) hs ls
  | false ↦ elim (add_header kv hs) [
    | err e ↦ err e
    | ok hs' ↦ elim (l.text == "") [
      | true ↦ ok (hs', l.after)
      | false ↦ read_after (trim_blank l.text) hs' ls
    ]
  ]
]

read_lines : List Line → Result (Headers × String)
unfolding read_after starts_blank trim_blank
read_lines [] = err (message "EOF")
read_lines (l ∷ ls) =
    if starts_blank l.text
    then err (message "malformed initial line")
    else if l.text == ""
    then ok ([], l.after)
    else read_after (trim_blank l.text) [] ls

-- mail.ReadMessage: the headers in their order, and the body
unfoldable pub read_message : String → Result (Headers × String)
unfolding lines read_lines
read_message b = read_lines (lines b)

lower_ascii : ℕ → ℕ
lower_ascii c = if leb 65 c && leb c 90 then c + 32 else c

-- Do the two keys differ at most in the case of ASCII letters?
unfoldable pub same_key : String → String → Bool
unfolding lower_ascii
same_key String.[] String.[] = true
same_key String.[] (String.◌∷◌ d t) = false
same_key (String.◌∷◌ c s) String.[] = false
same_key (String.◌∷◌ c s) (String.◌∷◌ d t) =
    nat_eq (lower_ascii (code c)) (lower_ascii (code d)) && same_key s t

-- Header.Get of a key of letters: the first value, or ""
unfoldable pub get : String → Headers → String
unfolding same_key
get key [] = ""
get key (h ∷ hs) = if same_key h.0 key then h.1 else get key hs

read_message_test :
    read_message "Subject: a\r\n b\r\nTo:  c\r\n\r\nx\r\ny"
    ≡ ok (("Subject", "a b") ∷ ("To", "c") ∷ [], "x\r\ny")
unfolding read_message
read_message_test = refl
