-- ===== src/Mailbox/Reader/Lines.antt =====
-- Header lines that net/mail reads back.
use Prim.Native.Char.{code}
use Prim.Native.String.{◌++◌ as append}
use text.Mathlib.TextLemmas.{cons-append, nil-append, append_assoc as text_append_assoc}
use botfam.Base.{
  ℕ, String, ◌≡◌, refl, sym, ap, ◌∙◌, Bool, true, false, not, ◌||◌, false≢true, [], ◌∷◌, ◌++◌, map,
  append-nil, append_assoc, arith, ◌==◌, nat_eq, ok, All,
}
use botfam.Base.Text.{cons_not_empty}
use botfam.Base.Runes.{all_chars, all_chars-append, starts_clean}
use botfam.Mailbox.Sanitize.{is_not_control}
use botfam.Mailbox.Message.{Headers, header_lines}
use botfam.Mailbox.Reader.Trim.{
  is_key_char, trim_blank_right-cons, trim_blank_right-append, cut_colon-append,
  trim_blank_right-space, trim_blank_left-key, starts_blank-key,
}
use botfam.Mailbox.Reader.{
  lines, add_char, starts_newline, starts_blank, is_blank_char, trim_blank, trim_blank_right,
  add_header, header_of, read_after, read_lines, read_message,
}

-- A header that Encode writes: a key, and a value without control characters of ASCII that begins with no space.
unfoldable pub IsWritten : String × String → Type 0
IsWritten (k, v) =
    (all_chars is_key_char k ≡ true)
    × ((k == "") ≡ false)
    × (all_chars is_not_control v ≡ true)
    × (starts_clean v ≡ true)
    × ((v == "") ≡ false)

-- What is read of a header: the spaces at the end of the value are lost.
unfoldable pub read_header : String × String → String × String
read_header (k, v) = (k, trim_blank_right v)

header_text : String × String → String
header_text (k, v) = append k (append ": " v)

ends_line : ℕ → Bool
ends_line c = nat_eq c 10 || nat_eq c 13

lines-append :
    (s rest : String)
    → all_chars (λ c. not (ends_line c)) s ≡ true
    → lines (append s (append "\r\n" rest)) ≡ record { text = s; after = rest } ∷ lines rest
unfolding lines all_chars ends_line add_char starts_newline
lines-append String.[] rest h =
    rw
      (
        nil-append (append "\r\n" rest),
        cons-append "\r" "\n" rest,
        cons-append "\n" "" rest,
        nil-append rest,
      )
      refl
lines-append (String.◌∷◌ c s) rest h =
    rw (cons-append c s (append "\r\n" rest), lines-append s rest (ground arith)) (ground arith)

colon : is_blank_char (code ":") ≡ false
unfolding is_blank_char
colon = refl

-- A header line without the spaces around it is its key, a colon and the value read.
trim_blank-header_text :
    (h : String × String)
    → IsWritten h
    → trim_blank (header_text h) ≡ append h.0 (append ":" (trim_blank_right (append " " h.1)))
unfolding trim_blank header_text IsWritten
trim_blank-header_text (k, v) w =
    rw
      (
        trim_blank_left-key k (append ": " v) w.0 w.1,
        trim_blank_right-append k (append ": " v) w.0,
        cons-append ":" " " v,
        cons-append ":" "" (trim_blank_right (append " " v)),
        nil-append (trim_blank_right (append " " v)),
        trim_blank_right-cons ":" (append " " v) colon,
      )
      refl

add_header-header_text :
    (h : String × String) (hs : Headers)
    → IsWritten h
    → add_header (trim_blank (header_text h)) hs ≡ ok (hs ++ read_header h ∷ [])
unfolding add_header header_of read_header IsWritten
add_header-header_text (k, v) hs w =
    rw
      (
        trim_blank-header_text (k, v) w,
        cut_colon-append k (trim_blank_right (append " " v)) w.0,
        w.1,
        trim_blank_right-space v w.3,
      )
      refl

regroup :
    (k v rest t : String)
    → append (append k (append ": " (append v (append "\r\n" rest)))) t
      ≡ append (append k (append ": " v)) (append "\r\n" (append rest t))
regroup k v rest t = simp text_append_assoc refl

all_chars-empty : all_chars (λ c. not (ends_line c)) "" ≡ true
unfolding all_chars
all_chars-empty = refl

ends_line-key :
    (k : String) → all_chars is_key_char k ≡ true → all_chars (λ c. not (ends_line c)) k ≡ true
unfolding all_chars is_key_char ends_line
ends_line-key String.[] h = refl
ends_line-key (String.◌∷◌ c k) h = ground (arith, ends_line-key k)

ends_line-value :
    (v : String) → all_chars is_not_control v ≡ true → all_chars (λ c. not (ends_line c)) v ≡ true
unfolding all_chars is_not_control ends_line
ends_line-value String.[] h = refl
ends_line-value (String.◌∷◌ c v) h = ground (arith, ends_line-value v)

ends_line-colon : all_chars (λ c. not (ends_line c)) ": " ≡ true
unfolding all_chars ends_line
ends_line-colon = refl

ends_line-header_text :
    (h : String × String) → IsWritten h → all_chars (λ c. not (ends_line c)) (header_text h) ≡ true
unfolding IsWritten header_text
ends_line-header_text (k, v) w =
    rw
      (
        all_chars-append (λ c. not (ends_line c)) k (append ": " v),
        all_chars-append (λ c. not (ends_line c)) ": " v,
        ends_line-key k w.0,
        ends_line-colon,
        ends_line-value v w.2,
      )
      refl

starts_blank-header_text :
    (h : String × String) → IsWritten h → starts_blank (header_text h) ≡ false
unfolding IsWritten header_text
starts_blank-header_text (k, v) w = starts_blank-key k (append ": " v) w.0 w.1

append_not_empty : (k s : String) → (k == "") ≡ false → (append k s == "") ≡ false
append_not_empty String.[] s h = absurd (false≢true (sym h))
append_not_empty (String.◌∷◌ c k) s h = rw (cons-append c k s) (cons_not_empty c (append k s))

header_text_not_empty : (h : String × String) → IsWritten h → (header_text h == "") ≡ false
unfolding IsWritten header_text
header_text_not_empty (k, v) w = append_not_empty k (append ": " v) w.1

-- The lines of headers, a blank line and a body.
lines-header_lines :
    (h : String × String) (hs : Headers) (body : String)
    → IsWritten h
    → lines (append (header_lines (h ∷ hs)) (append "\r\n" body))
      ≡ record { text = header_text h; after = append (header_lines hs) (append "\r\n" body) }
        ∷ lines (append (header_lines hs) (append "\r\n" body))
unfolding header_lines header_text
lines-header_lines (k, v) hs body w =
    ap lines (regroup k v (header_lines hs) (append "\r\n" body))
    ∙ lines-append (append k (append ": " v)) (append (header_lines hs) (append "\r\n" body))
        (ends_line-header_text (k, v) w)

lines-blank_line :
    (body : String)
    → lines (append (header_lines []) (append "\r\n" body))
      ≡ record { text = ""; after = body } ∷ lines body
unfolding header_lines
lines-blank_line body =
    ap lines (nil-append (append "\r\n" body))
    ∙ ap lines (sym (nil-append (append "\r\n" body)))
    ∙ lines-append "" body all_chars-empty

read_after-header_lines :
    (kv : String) (hs hs' gs : Headers) (body : String)
    → All IsWritten gs
    → add_header kv hs ≡ ok hs'
    → read_after kv hs (lines (append (header_lines gs) (append "\r\n" body)))
      ≡ ok (hs' ++ map read_header gs, body)
unfolding read_after
read_after-header_lines kv hs hs' [] body w e =
    rw (lines-blank_line body, read_after, e, append-nil hs') refl
read_after-header_lines kv hs hs' (g ∷ gs) body w e =
    rw
      (
        lines-header_lines g gs body w.0,
        read_after,
        starts_blank-header_text g w.0,
        e,
        header_text_not_empty g w.0,
        read_after-header_lines (trim_blank (header_text g)) hs' (hs' ++ read_header g ∷ []) gs body
            w.1 (add_header-header_text g hs' w.0),
        append_assoc hs' (read_header g ∷ []) (map read_header gs),
      )
      refl

-- Reading the lines of written headers, a blank line and a body gives the headers and the body.
pub read_message-header_lines :
    (gs : Headers) (body : String)
    → All IsWritten gs
    → read_message (append (header_lines gs) (append "\r\n" body)) ≡ ok (map read_header gs, body)
unfolding read_message read_lines starts_blank
read_message-header_lines [] body w = rw (lines-blank_line body) refl
read_message-header_lines (g ∷ gs) body w =
    rw
      (
        lines-header_lines g gs body w.0,
        starts_blank-header_text g w.0,
        header_text_not_empty g w.0,
      )
      (read_after-header_lines (trim_blank (header_text g)) [] (read_header g ∷ []) gs body w.1
        (add_header-header_text g [] w.0))
