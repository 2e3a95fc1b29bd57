-- ===== src/Mailbox/Parse.antt =====
-- internal/mailbox/message.go: ParseMessage.
pub mod Fields
pub mod Values
pub mod RoundTrip
use Prim.Native.Char.{Char, code}
use Prim.Native.String.{◌++◌ as append}
use text.Mathlib.TextLemmas.{
  cons-append, nil-append, append-nil as text_append-nil, append_assoc as text_append_assoc,
}
use botfam.Base.{
  or_default, ℕ, zero, suc, ◌+◌, ◌-◌, ◌*◌, ◌/◌, ◌%◌, ◌^◌, ◌≤◌, ◌<◌, String, ◌≡◌, refl, sym, ap, ◌∙◌,
  fun_ext, ◌≢◌, ◌↔◌, ◌⊎◌, inl, inr, Bool, true, false, not, ◌&&◌, ◌||◌, false≢true, Option, none,
  some, List, [], ◌∷◌, ◌++◌, map, append-nil, append_assoc, arith, ◌==◌, eq_iff, eq_refl, ltb, leb,
  nat_eq, if◌then◌else◌, ltb→lt, nat_eq_iff, Bool-cases, Option-cases, Error, engine, message,
  Result, ok, err, Exec, pure, raise, continue, ◌>>=◌, ◌>>◌, ignore, Result-cases, length, any,
  find, filter, update, length-append, any-append, is_some, or_else, any-find, All, All-append,
}
use botfam.Base.Text.{is_space, trim_space, is_blank, join, digit, format_int}
use botfam.Base.Runes.{
  all_chars, runes, take_runes, keep_chars, fields, all_chars-append, all_chars-take_runes,
  all_chars-keep_chars, runes-take_runes-le, all_chars-trim_space, all_chars-join-fields,
  starts_clean, starts_clean-trim_space, starts_clean-take_runes,
}
use botfam.Base.Numerals.{ℤ, parse_int}
use botfam.Mailbox.Message.{Times, Message, Headers}
use botfam.Mailbox.Reader.{read_message, get}

module _ {Time : Type 0} (times : Times Time) where
  -- the message of the headers and the body that were read
  unfoldable pub decode : Headers → String → Message Time
  unfolding get parse_int
  decode hs body = record {
    from = get "From" hs;
    to = get "To" hs;
    subject = get "Subject" hs;
    source = get "Source" hs;
    kind = get "Kind" hs;
    seq = if get "Seq" hs == "" then ℤ.pos 0 else or_default (ℤ.pos 0) (parse_int (get "Seq" hs));
    date =
        if get "Date" hs == ""
        then times.zero_time
        else or_default times.zero_time (times.parse_rfc3339 (get "Date" hs));
    directed = get "Directed" hs == "true";
    traceparent = get "Traceparent" hs;
    body = body;
  }

  decode_read : Result (Headers × String) → Result (Message Time)
  unfolding decode
  decode_read (err e) = err e
  decode_read (ok (hs, body)) = ok (decode hs body)

  -- ParseMessage
  unfoldable pub parse_message : String → Result (Message Time)
  unfolding read_message decode_read
  parse_message b = decode_read (read_message b)
