-- ===== src/Mailbox/Parse/RoundTrip.antt =====
-- internal/mailbox/message.go: what ParseMessage reads from what Encode writes.
use botfam.Base.{
  String, ◌≡◌, refl, Bool, true, false, some, [], ◌∷◌, map, append-nil, append_assoc, arith, ◌==◌,
  if◌then◌else◌, ok, any, All,
}
use botfam.Base.Runes.{all_chars}
use botfam.Base.Numerals.{ℤ, is_positive, format_integer}
use botfam.Mailbox.Sanitize.{
  sanitize_header_value, sanitize_name, max_subject_len, max_name_len, max_value_len,
}
use botfam.Mailbox.Message.{Times, Message, Headers, put, message_headers, encode, date_value}
use botfam.Mailbox.Reader.{get, same_key, trim_blank_right}
use botfam.Mailbox.Reader.Trim.{is_key_char}
use botfam.Mailbox.Reader.Lines.{IsWritten, read_header, read_message-header_lines}
use botfam.Mailbox.Parse.{parse_message, decode, decode_read}
use botfam.Mailbox.Parse.Values.{
  name-graphic, seq-graphic, directed-graphic, graphic-IsField, value-IsField, IsInt64, seq_lem,
  directed_lem,
}
use botfam.Mailbox.Parse.Fields.{
  puts, stands_once, get-puts, is_graphic, graphic_value, IsField, All-puts,
}

module _ {Time : Type 0} (times : Times Time) where
  -- the time that is written for a message without a date is the current one
  unfoldable pub date_written : Message Time → Time
  date_written m = if times.is_zero m.date then times.now else m.date

  -- The layout RFC3339 of a time: graphic characters, which are parsed to that second.
  unfoldable pub IsRfc3339 : (Time → Time) → Time → Type 0
  IsRfc3339 seconds t =
      (all_chars is_graphic (times.format_rfc3339 t) ≡ true)
      × ((times.format_rfc3339 t == "") ≡ false)
      × (times.parse_rfc3339 (times.format_rfc3339 t) ≡ some (seconds t))

  -- The message that arrives: names and values cleaned and cut, spaces at the cut dropped; the
  -- sequence number if it is positive; the date to the second; and the body as it was.
  unfoldable pub received : (Time → Time) → Message Time → Message Time
  received seconds m = record {
    from = sanitize_name m.from;
    to = sanitize_name m.to;
    subject = trim_blank_right (sanitize_header_value m.subject max_subject_len);
    source = trim_blank_right (sanitize_header_value m.source max_name_len);
    kind = trim_blank_right (sanitize_header_value m.kind max_name_len);
    seq = if is_positive m.seq then m.seq else ℤ.pos 0;
    date = seconds (date_written m);
    directed = m.directed;
    traceparent = trim_blank_right (sanitize_header_value m.traceparent max_value_len);
    body = m.body;
  }

  seq_value : Message Time → String
  seq_value m = if is_positive m.seq then format_integer m.seq else ""

  -- The nine headers with their values, the empty ones too.
  all_fields : Message Time → Headers
  all_fields m =
      ("From", sanitize_name m.from)
      ∷ ("To", sanitize_name m.to)
      ∷ ("Subject", sanitize_header_value m.subject max_subject_len)
      ∷ ("Source", sanitize_header_value m.source max_name_len)
      ∷ ("Kind", sanitize_header_value m.kind max_name_len)
      ∷ ("Seq", seq_value m)
      ∷ ("Date", date_value times m)
      ∷ ("Directed", if m.directed then "true" else "")
      ∷ ("Traceparent", sanitize_header_value m.traceparent max_value_len)
      ∷ []

  put-if : (b : Bool) (k v : String) → (if b then put k v else []) ≡ put k (if b then v else "")
  unfolding put
  put-if true k v = refl
  put-if false k v = refl

  message_headers-puts : (m : Message Time) → message_headers times m ≡ puts (all_fields m)
  unfolding message_headers puts all_fields seq_value
  message_headers-puts m =
      rw
        (
          append-nil (put "Traceparent" (sanitize_header_value m.traceparent max_value_len)),
          put-if (is_positive m.seq) "Seq" (format_integer m.seq),
          put-if m.directed "Directed" "true",
        )
        (simp append_assoc refl)

  header :
      (key : String) (m : Message Time)
      → stands_once key (all_fields m) ≡ true
      → get key (map read_header (message_headers times m))
        ≡ trim_blank_right (get key (all_fields m))
  header key m h = rw (message_headers-puts m) (get-puts key (all_fields m) h)

  graphic-seq_value : (m : Message Time) → all_chars is_graphic (seq_value m) ≡ true
  unfolding seq_value
  graphic-seq_value m = seq-graphic m.seq

  fields_lem :
      (seconds : Time → Time) (m : Message Time)
      → IsRfc3339 seconds (date_written m)
      → All IsField (all_fields m)
  unfolding all_fields all_chars is_key_char IsRfc3339 date_written
  fields_lem seconds m h = (
    graphic-IsField "From" (sanitize_name m.from) refl refl (name-graphic m.from),
    (
      graphic-IsField "To" (sanitize_name m.to) refl refl (name-graphic m.to),
      (
        value-IsField "Subject" m.subject max_subject_len refl refl (ground arith),
        (
          value-IsField "Source" m.source max_name_len refl refl (ground arith),
          (
            value-IsField "Kind" m.kind max_name_len refl refl (ground arith),
            (
              graphic-IsField "Seq" (seq_value m) refl refl (graphic-seq_value m),
              (
                graphic-IsField "Date" (date_value times m) refl refl h.0,
                (
                  graphic-IsField "Directed" (if m.directed then "true" else "") refl refl
                      (directed-graphic m.directed),
                  (
                    value-IsField "Traceparent" m.traceparent max_value_len refl refl
                        (ground arith),
                    tt,
                  ),
                ),
              ),
            ),
          ),
        ),
      ),
    ),
  )

  written_lem :
      (seconds : Time → Time) (m : Message Time)
      → IsRfc3339 seconds (date_written m)
      → All IsWritten (message_headers times m)
  written_lem seconds m h =
      rw (message_headers-puts m) (All-puts (all_fields m) (fields_lem seconds m h))

  trim-graphic : (v : String) → all_chars is_graphic v ≡ true → trim_blank_right v ≡ v
  trim-graphic v h = (graphic_value v h).2

  decode_lem :
      (seconds : Time → Time) (m : Message Time)
      → IsRfc3339 seconds (date_written m)
      → IsInt64 m.seq
      → decode times (map read_header (message_headers times m)) m.body ≡ received seconds m
  unfolding decode seq_value date_written IsRfc3339 received get same_key all_fields stands_once any
  decode_lem seconds m h hs =
      rw
        (
          header "From" m refl,
          header "To" m refl,
          header "Subject" m refl,
          header "Source" m refl,
          header "Kind" m refl,
          header "Seq" m refl,
          header "Date" m refl,
          header "Directed" m refl,
          header "Traceparent" m refl,
          trim-graphic (sanitize_name m.from) (name-graphic m.from),
          trim-graphic (sanitize_name m.to) (name-graphic m.to),
          trim-graphic (seq_value m) (graphic-seq_value m),
          seq_lem m.seq hs,
          trim-graphic (date_value times m) h.0,
          h.1,
          h.2,
          trim-graphic (if m.directed then "true" else "") (directed-graphic m.directed),
          directed_lem m.directed,
        )
        refl

  -- ParseMessage of what Encode writes gives the message that was sent, with its names and values
  -- cleaned and without spaces at their ends, its sequence number if it is positive and 0 otherwise,
  -- its date to the second, and its body as it was. The sequence number is an int64, and the time
  -- that is written has the form of RFC 3339: graphic characters that are parsed to that second.
  pub parse_message-encode :
      (seconds : Time → Time) (m : Message Time)
      → IsRfc3339 seconds (date_written m)
      → IsInt64 m.seq
      → parse_message times (encode times m) ≡ ok (received seconds m)
  unfolding parse_message decode_read encode
  parse_message-encode seconds m h hs =
      rw
        (
          read_message-header_lines (message_headers times m) m.body (written_lem seconds m h),
          decode_lem seconds m h hs,
        )
        refl
