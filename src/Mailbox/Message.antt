-- ===== src/Mailbox/Message.antt =====
-- internal/mailbox/message.go: Message, Encode and SanitizedHeaders.
use Prim.Native.String.{◌++◌ as append}
use botfam.Base.{String, Bool, Option, List, [], ◌∷◌, ◌++◌, ◌==◌, if◌then◌else◌}
use botfam.Base.Numerals.{ℤ, is_positive, format_integer}
use botfam.Mailbox.Sanitize.{
  sanitize_header_value, sanitize_name, max_subject_len, max_name_len, max_value_len,
}

-- What the program uses of the package time: the clock, the zero time, and the layout RFC3339 of
-- the time in UTC, written and read.
pub record Times (Time : Type 0) : Type 0 where
  pub now : Time
  pub zero_time : Time
  pub is_zero : Time → Bool
  pub format_rfc3339 : Time → String
  pub parse_rfc3339 : String → Option Time

pub record Message (Time : Type 0) : Type 0 where
  pub from : String
  pub to : String
  pub subject : String
  pub source : String
  pub kind : String
  pub seq : ℤ
  pub date : Time
  pub directed : Bool
  pub traceparent : String
  pub body : String

abbrev pub Headers : Type 0
Headers = List (String × String)

-- the closures put and set: empty headers are omitted
unfoldable pub put : String → String → Headers
put k v = if v == "" then [] else (k, v) ∷ []

-- fmt.Fprintf(&b, "%s: %s\r\n", k, v) of each header
unfoldable pub header_lines : Headers → String
header_lines [] = ""
header_lines (h ∷ hs) = append h.0 (append ": " (append h.1 (append "\r\n" (header_lines hs))))

module _ {Time : Type 0} (times : Times Time) where
  -- the value of the header Date, the current time when the message has none
  abbrev pub date_value : Message Time → String
  date_value m = times.format_rfc3339 (if times.is_zero m.date then times.now else m.date)

  -- The headers that Encode writes, in its order.
  unfoldable pub message_headers : Message Time → Headers
  unfolding put sanitize_name sanitize_header_value is_positive format_integer
  message_headers m =
      put "From" (sanitize_name m.from)
      ++ put "To" (sanitize_name m.to)
      ++ put "Subject" (sanitize_header_value m.subject max_subject_len)
      ++ put "Source" (sanitize_header_value m.source max_name_len)
      ++ put "Kind" (sanitize_header_value m.kind max_name_len)
      ++ (if is_positive m.seq then put "Seq" (format_integer m.seq) else [])
      ++ put "Date" (date_value m)
      ++ (if m.directed then put "Directed" "true" else [])
      ++ put "Traceparent" (sanitize_header_value m.traceparent max_value_len)

  -- Message.Encode
  unfoldable pub encode : Message Time → String
  unfolding message_headers header_lines
  encode m = append (header_lines (message_headers m)) (append "\r\n" m.body)

  -- Message.SanitizedHeaders
  unfoldable pub sanitized_headers : Message Time → Headers
  unfolding put sanitize_name sanitize_header_value is_positive format_integer
  sanitized_headers m =
      put "From" (sanitize_name m.from)
      ++ put "To" (sanitize_name m.to)
      ++ put "Subject" (sanitize_header_value m.subject max_subject_len)
      ++ put "Source" (sanitize_header_value m.source max_name_len)
      ++ put "Kind" (sanitize_header_value m.kind max_name_len)
      ++ (if is_positive m.seq then put "Seq" (format_integer m.seq) else [])
      ++ put "Date" (date_value m)
