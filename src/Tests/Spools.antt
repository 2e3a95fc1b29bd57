-- ===== src/Tests/Spools.antt =====
-- Messages, spools and polls on concrete inputs: internal/mailbox, ingest, forge/scope.go and memory.
use botfam.Base.{
  Exec, message, ℕ, ◌+◌, ◌≤◌, String, ◌≡◌, refl, ◌↔◌, ◌⊎◌, true, false, none, some, List, [], ◌∷◌,
  arith, nat_eq, engine, ok, err, any, All,
}
use botfam.Base.Text.{format_int}
use botfam.Base.Runes.{all_chars, runes, starts_clean}
use botfam.Base.Numerals.{ℤ}
use botfam.Base.Numerals.{read_digits}
use botfam.Mailbox.Sanitize.{sanitize_header_value, sanitize_header_value_lem, is_not_control}
use botfam.Mailbox.Message.{Times, Message, encode}
use botfam.Mailbox.Parse.{parse_message}
use botfam.Mailbox.Reader.{trim_blank_right}
use botfam.Mailbox.Parse.Fields.{is_graphic}
use botfam.Mailbox.Parse.Values.{IsInt64}
use botfam.Mailbox.Parse.RoundTrip.{received, IsRfc3339, date_written, parse_message-encode}
use botfam.Mailbox.Spool.{Spool, Process, Cursors, Entry, new_box, ack, deliver}
use botfam.Mailbox.Spool.Ack.{Acked, ack-Acked}
use botfam.Mailbox.Spool.Deliver.{IsFresh, Delivery, deliver-Delivery}
use botfam.Ingest.{Notification, ForgeClient, Unicode, parse_forge_time}
use botfam.Ingest.Poll.{World, poll, poll_once, run_pollers, min_forge_watermark}
use botfam.Ingest.Poll.Checkpoint.{poll_once_saves}
use botfam.Ingest.Poll.Watermark.{Polled, CaughtUp}
use botfam.Ingest.Poll.Lossless.{poll-Polled, poll-poll, poll_seeds}
use botfam.Forge.Closure.{has, Reach}
use botfam.Forge.Scope.{Issue, Scope, children_of, select_issues}
use botfam.Forge.Scope.Epics.{select_issues-Reach}
use botfam.FamConfig.Harness.{resolve_harness}
use botfam.FamConfig.Harness.Reconciled.{IsReconciled, resolve_harness-IsReconciled}
use botfam.FamConfig.Fam.{parse_actor}
use botfam.IssueGraph.{build}
use botfam.IssueGraph.Edges.{IsLinked, build-IsLinked}
use botfam.Memory.{slug}
use botfam.Memory.Slug.{IsPageName, slug-IsPageName}

-- Times are Unix seconds, written in digits.
abbrev clock : Times ℕ
clock = record {
  now = 1700000000;
  zero_time = 0;
  is_zero = λ t. nat_eq t 0;
  format_rfc3339 = format_int;
  parse_rfc3339 = read_digits 0;
}

abbrev letter : Message ℕ
letter = record {
  from = "ann";
  to = "bob!";
  subject = "hello\r\nDirected: true";
  source = "forge";
  kind = "issue_comment";
  seq = ℤ.pos 12;
  date = 1700000001;
  directed = false;
  traceparent = "";
  body = "text\r\n\r\nmore";
}

letter-IsRfc3339 : IsRfc3339 clock (λ t. t) (date_written clock letter)
unfolding IsRfc3339 date_written all_chars format_int is_graphic read_digits
letter-IsRfc3339 = (refl, refl, refl)

letter-IsInt64 : IsInt64 letter.seq
unfolding IsInt64
letter-IsInt64 = ground arith

parse_message-encode_example :
    parse_message clock (encode clock letter) ≡ ok (received clock (λ t. t) letter)
parse_message-encode_example =
    parse_message-encode clock (λ t. t) letter letter-IsRfc3339 letter-IsInt64

received_test : (received clock (λ t. t) letter).subject ≡ "hello Directed: true"
unfolding received trim_blank_right sanitize_header_value
received_test = refl

-- A line that is no header costs the whole message, its body too.
malformed_header_test :
    parse_message clock "Subject: a\r\nno header\r\n\r\nbody"
    ≡ err (message "malformed header line")
unfolding parse_message
malformed_header_test = refl

sanitize_header_value_example :
    (all_chars is_not_control (sanitize_header_value " a\r\nB: c\t" 3) ≡ true)
    × (runes (sanitize_header_value " a\r\nB: c\t" 3) ≤ 3)
    × (starts_clean (sanitize_header_value " a\r\nB: c\t" 3) ≡ true)
sanitize_header_value_example = sanitize_header_value_lem " a\r\nB: c\t" 3 (ground arith)

abbrev process : Process
process = record { nanos = λ n. n + 1700000000; pid = 7; hostname = some "host" }

abbrev no_cursors : Cursors
no_cursors = record { irc_offset = 0; forge_watermark = 0 }

abbrev set_cursors : Cursors
set_cursors = record { irc_offset = 0; forge_watermark = 1700000000 }

abbrev spool : Spool ℕ
spool = record {
  tmp = [];
  new = [];
  cur = [];
  cursors = none;
  faults = [];
  counter = 0;
  on_deliver = true;
  nudged = [];
}

spool-IsFresh : IsFresh clock process spool
unfolding IsFresh any
spool-IsFresh k h = refl

deliver-Delivery_example :
    Delivery clock process letter spool
      (deliver clock process letter spool).0
      (deliver clock process letter spool).1
deliver-Delivery_example = deliver-Delivery clock process letter spool spool-IsFresh

abbrev delivered : Spool ℕ
delivered = record spool { new = ("1.x", "text") ∷ ("2.x", "more") ∷ []; faults = false ∷ [] }

abbrev first_entry : Entry
first_entry = record { name = "1.x"; box = new_box }

ack-Acked_example :
    Acked first_entry delivered (ack first_entry delivered).0 (ack first_entry delivered).1
ack-Acked_example = ack-Acked first_entry delivered

abbrev notification : String → String → Notification
notification updated url = record {
  updated = updated;
  title = "a title";
  url = url;
  html_url = "";
  type = "issue";
  state = "open";
  full_name = "o/r";
}

abbrev notifications : List Notification
notifications =
    notification "1700000007" "http://f/o/r/issues/3"
    ∷ notification "1700000005" "http://f/o/r/issues/2"
    ∷ notification "1699999999" "http://f/o/r/issues/1"
    ∷ []

abbrev forge : ForgeClient ℕ
forge = record {
  list_unread = ok notifications;
  get_issue_timeline = λ n. err engine;
  get_subject = λ url. none;
}

abbrev letters : Unicode
letters = record { to_lower = λ s. s; to_upper = λ s. s; quote = λ s. s }

poll-Polled_example :
    let w = poll clock (λ t. t) letters process forge "bob" (spool, set_cursors) in
    Polled clock (λ t. t) letters process forge "bob" notifications (spool, set_cursors) w.0 w.1
poll-Polled_example =
    poll-Polled (λ t. t) letters process forge "bob" notifications refl clock spool set_cursors
      spool-IsFresh (ground arith)

-- the state after a poll
abbrev polled : Spool ℕ × Cursors
polled = (poll clock (λ t. t) letters process forge "bob" (spool, set_cursors)).1

poll-ok :
    poll clock (λ t. t) letters process forge "bob" (spool, set_cursors)
    ≡ (ok tt, (polled.0, polled.1))
unfolding poll
poll-ok = refl

times-parse : All (λ n. clock.is_zero (parse_forge_time clock n.updated) ≡ false) notifications
unfolding parse_forge_time read_digits
times-parse = (refl, (refl, (refl, tt)))

poll-poll_example :
    poll (record clock { now = 1700000100 }) (λ t. t) letters process forge "bob" polled
    ≡ (ok tt, polled)
poll-poll_example =
    poll-poll (λ t. t) letters process forge "bob" notifications refl clock 1700000100 set_cursors
      polled.1 spool polled.0 spool-IsFresh times-parse (ground arith) poll-ok

poll_seeds_example :
    (m : ℕ) × ((poll clock (λ t. t) letters process forge "bob" (spool, no_cursors)
        ≡ (ok tt, (spool, record no_cursors { forge_watermark = m })))
      × (min_forge_watermark ≤ m)
      × CaughtUp clock (λ t. t) m notifications)
poll_seeds_example =
    poll_seeds (λ t. t) letters process forge "bob" notifications refl clock spool no_cursors
      (ground arith) (ground arith)

abbrev issue : ℕ → String → Issue
issue n body = record {
  index = n;
  title = "a title";
  state = "open";
  body = body;
  labels = [];
  milestone = none;
  is_pull = false;
}

-- an epic whose tasks lead back to it
abbrev issues : List Issue
issues =
    issue 1 "Tasks:\n- [ ] #2\n* [x]  #30\n- [ ] see #9"
    ∷ issue 2 "- [X] #1\n- [ ] #4"
    ∷ issue 4 "#5"
    ∷ []

abbrev epic_scope : Scope
epic_scope = record { milestone = ""; label = ""; epic = 1 }

select_issues_test : select_issues issues epic_scope ≡ some (4 ∷ 30 ∷ 2 ∷ 1 ∷ [])
unfolding select_issues
select_issues_test = refl

select_issues-Reach_example :
    (r : List ℕ) × ((select_issues issues epic_scope ≡ some r)
      × ((n : ℕ) → (has n r ≡ true) ↔ Reach (children_of issues) 1 n))
select_issues-Reach_example = select_issues-Reach issues epic_scope (ground arith)

slug-IsPageName_example : (slug (λ s. s) "new fact!" ≡ "") ⊎ IsPageName (slug (λ s. s) "new fact!")
slug-IsPageName_example = slug-IsPageName (λ s. s) "new fact!"

resolve_harness-IsReconciled_example :
    IsReconciled
      (λ s. s)
      "codex"
      ""
      ("CLAUDECODE=1" ∷ [])
      (resolve_harness (λ s. s) "codex" "" ("CLAUDECODE=1" ∷ []))
resolve_harness-IsReconciled_example =
    resolve_harness-IsReconciled (λ s. s) "codex" "" ("CLAUDECODE=1" ∷ [])

resolve_harness_test :
    (resolve_harness (λ s. s) "claude" "" ("A=1" ∷ "CLAUDECODE=1" ∷ [])).effective ≡ "claude-code"
unfolding resolve_harness
resolve_harness_test = refl

parse_actor_test : parse_actor "wt-botfam-ann" "botfam" ≡ "ann"
unfolding parse_actor
parse_actor_test = refl

build-IsLinked_example :
    IsLinked (build issues (record { scope = epic_scope; with_mentions = true }))
build-IsLinked_example = build-IsLinked issues (record { scope = epic_scope; with_mentions = true })

build_test :
    (build issues (record { scope = epic_scope; with_mentions = false })).edges
    ≡ record { from = 1; to = 2; kind = "subtask" }
      ∷ record { from = 2; to = 1; kind = "subtask" }
      ∷ record { from = 2; to = 4; kind = "subtask" }
      ∷ []
unfolding build
build_test = refl

abbrev saved : Spool ℕ
saved = record spool { cursors = some set_cursors }

abbrev one_poller : List (Exec (World ℕ) (Unit {0}))
one_poller = poll clock (λ t. t) letters process forge "bob" ∷ []

saved-cursors : (run_pollers process one_poller (saved, set_cursors)).0.cursors ≡ some set_cursors
unfolding run_pollers poll
saved-cursors = refl

saved-faults : (run_pollers process one_poller (saved, set_cursors)).0.faults ≡ []
unfolding run_pollers poll
saved-faults = refl

poll_once_saves_example :
    (poll_once process one_poller (saved, set_cursors)).0.cursors
    ≡ some (poll_once process one_poller (saved, set_cursors)).1
poll_once_saves_example =
    poll_once_saves process one_poller saved set_cursors saved-cursors saved-faults
