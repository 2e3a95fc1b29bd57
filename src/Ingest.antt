-- ===== src/Ingest.antt =====
-- internal/ingest/forge.go: the messages that the forge poller makes of notifications.
pub mod Poll
use Prim.Native.Char.{Char, code}
use Prim.Native.String.{◌++◌ as append}
use text.Mathlib.TextLemmas.{
  cons-append, nil-append, append-nil as text_append-nil, append_assoc as text_append_assoc,
}
use botfam.Base.{
  ℕ, zero, suc, ◌+◌, ◌-◌, ◌*◌, ◌/◌, ◌%◌, ◌^◌, ◌≤◌, ◌<◌, String, ◌≡◌, refl, sym, ap, ◌∙◌, fun_ext,
  ◌≢◌, ◌↔◌, ◌⊎◌, inl, inr, Bool, true, false, not, ◌&&◌, ◌||◌, false≢true, Option, none, some, List,
  [], ◌∷◌, ◌++◌, map, append-nil, append_assoc, arith, ◌==◌, eq_iff, eq_refl, ltb, leb, nat_eq,
  if◌then◌else◌, ltb→lt, nat_eq_iff, Bool-cases, Option-cases, Error, engine, message, Result, ok,
  err, Exec, pure, raise, continue, ◌>>=◌, ◌>>◌, ignore, Result-cases, length, any, find, filter,
  update, length-append, any-append, is_some, or_else, or_default, any-find, All, All-append,
}
use botfam.Base.Affixes.{contains}
use botfam.Base.Text.{is_space, trim_space, is_blank, join, digit, format_int}
use botfam.Base.Runes.{
  all_chars, runes, take_runes, keep_chars, fields, all_chars-append, all_chars-take_runes,
  all_chars-keep_chars, runes-take_runes-le, all_chars-trim_space, all_chars-join-fields,
  starts_clean, starts_clean-trim_space, starts_clean-take_runes,
}
use botfam.Base.Numerals.{
  ℤ, is_positive, parse_int, format_integer, parse_int-format_int, max_int64,
}
use botfam.Mailbox.Message.{Times, Message}

-- forge.Notification; `html_url`, `url`, `title`, `type` and `state` are those of its subject
pub record Notification : Type 0 where
  pub updated : String
  pub title : String
  pub url : String
  pub html_url : String
  pub type : String
  pub state : String
  pub full_name : String

-- forge.SubjectContent
pub record SubjectContent : Type 0 where
  pub body : String
  pub state : String
  pub user : String
  pub assignees : List String

-- forge.TimelineEvent; `poster` is none for a nil Poster
pub record TimelineEvent (Time : Type 0) : Type 0 where
  pub type : String
  pub body : String
  pub poster : Option String
  pub created : Time

-- ForgeClient: what the forge answers in one poll. GetSubject's error is dropped by the callers.
pub record ForgeClient (Time : Type 0) : Type 0 where
  pub list_unread : Result (List Notification)
  pub get_issue_timeline : ℕ → Result (List (TimelineEvent Time))
  pub get_subject : String → Option SubjectContent

-- What the program uses of Go's tables of Unicode: strings.ToLower and ToUpper, and strconv.Quote.
pub record Unicode : Type 0 where
  pub to_lower : String → String
  pub to_upper : String → String
  pub quote : String → String

-- strings.TrimRight(url, "/")
keep_slash : Char → String → String
keep_slash c String.[] = if nat_eq (code c) 47 then "" else String.◌∷◌ c ""
keep_slash c (String.◌∷◌ d s) = String.◌∷◌ c (String.◌∷◌ d s)

trim_slashes : String → String
unfolding keep_slash
trim_slashes String.[] = ""
trim_slashes (String.◌∷◌ c s) = keep_slash c (trim_slashes s)

-- what follows the last slash
after_slash : String → Option String
after_slash String.[] = none
after_slash (String.◌∷◌ c s) = or_else (after_slash s) (if nat_eq (code c) 47 then some s else none)

number_of : Option String → ℤ
unfolding parse_int
number_of none = ℤ.pos 0
number_of (some s) = or_default (ℤ.pos 0) (parse_int s)

unfoldable pub number_from_url : String → ℤ
unfolding trim_slashes after_slash number_of
number_from_url url = number_of (after_slash (trim_slashes url))

unfoldable pub timeline_verb : String → String × String
timeline_verb t =
    if t == "comment"
    then ("comment", "commented on")
    else if t == "close"
    then ("closed", "closed")
    else if t == "reopen"
    then ("reopened", "reopened")
    else if t == "merge_pull"
    then ("merged", "merged")
    else if t == "review"
    then ("review", "reviewed")
    else if t == "review_request"
    then ("review_requested", "requested review on")
    else if t == "label" || t == "unlabel"
    then ("labeled", "updated labels on")
    else if t == "assignees"
    then ("assigned", "updated assignees on")
    else if t == "pull_push"
    then ("pushed", "pushed to")
    else (t, append t " on")

-- what buildMessage collects
pub record Draft (Time : Type 0) : Type 0 where
  pub from : String
  pub kind : String
  pub date : Time
  pub directed : Bool
  pub body : String

last : {A : Type 0} → A → List A → A
last x [] = x
last x (y ∷ ys) = last y ys

named_poster : String → Option String → String
named_poster from none = from
named_poster from (some user) = if user == "" then from else user

-- The poller is asked for an agent's login; with none, every event counts as directed.
subject_directs : String → Option SubjectContent → Bool
unfolding any contains
subject_directs login none = login == ""
subject_directs login (some subj) =
    login == "" || any (λ a. a == login) subj.assignees || contains subj.body (append "@" login)

subject_url : Notification → String
subject_url n = if n.html_url == "" then n.url else n.html_url

issue_number : ℤ → ℕ
issue_number (ℤ.pos n) = n
issue_number (ℤ.negsuc n) = 0

module _ (unicode : Unicode) where
  unfoldable pub capitalize : String → String
  capitalize String.[] = ""
  capitalize (String.◌∷◌ c s) = append (unicode.to_upper (String.◌∷◌ c "")) s

  unfoldable pub forge_subject : Notification → String → String → String
  unfolding number_from_url is_positive format_integer
  forge_subject n url kind =
      let num = number_from_url url in
      if is_positive num
      then append kind (
          append ": " (
            append n.full_name
              (append "#" (append (format_integer num) (append " " (unicode.quote n.title))))))
      else append kind (append ": " (append n.full_name (append " " (unicode.quote n.title))))

module _ {Time : Type 0} (times : Times Time) where
  unfoldable pub parse_forge_time : String → Time
  parse_forge_time s =
      if s == "" then times.zero_time else or_default times.zero_time (times.parse_rfc3339 s)

module _ {Time : Type 0} (times : Times Time) (unicode : Unicode) where
  -- the newest event of the timeline
  with_event :
      String → Notification → String → String → TimelineEvent Time → Draft Time → Draft Time
  unfolding timeline_verb named_poster trim_space contains
  with_event login n url base ev d =
      let (suffix, verb) = timeline_verb ev.type in
      let from = named_poster d.from ev.poster in
      let txt = trim_space ev.body in
      let head =
        append from
          (append " " (append verb (append " " (append url (append " [" (append n.state "]")))))) in
      let text = if txt == "" then head else append head (append ":\n\n" txt) in
      record {
        from = from;
        kind = append base (append "_" suffix);
        date = if times.is_zero ev.created then d.date else ev.created;
        directed =
            d.directed || not (txt == "") && not (login == "") && contains txt (append "@" login);
        body = append text (append "\n\n" url);
      }

  with_timeline :
      String
      → Notification
      → String
      → String
      → Result (List (TimelineEvent Time))
      → Draft Time
      → Draft Time
  unfolding with_event last
  with_timeline login n url base (err e) d = d
  with_timeline login n url base (ok []) d = d
  with_timeline login n url base (ok (ev ∷ evs)) d = with_event login n url base (last ev evs) d

  -- the fallbacks for a body
  with_subject : String → String → Option SubjectContent → Draft Time → Draft Time
  unfolding trim_space capitalize
  with_subject url base none d = record d { body = if d.body == "" then url else d.body }
  with_subject url base (some subj) d =
      let from = if subj.user == "" then d.from else subj.user in
      if d.body == ""
      then record d {
        from = from;
        body = append (capitalize unicode base) (
            append " by " (
              append from (
                append " [" (
                  append subj.state
                    (append "]:\n\n" (append (trim_space subj.body) (append "\n\n" url)))))));
      }
      else d

  -- forgePoller.buildMessage
  unfoldable pub build_message : ForgeClient Time → String → Notification → Message Time
  unfolding subject_url parse_forge_time subject_directs with_timeline with_subject number_from_url
      is_positive issue_number forge_subject
  build_message client login n =
      let url = subject_url n in
      let base = unicode.to_lower n.type in
      let subj = client.get_subject n.url in
      let d0 : Draft Time = record {
        from = "forge";
        kind = base;
        date = parse_forge_time times n.updated;
        directed = subject_directs login subj;
        body = "";
      } in
      let num = number_from_url url in
      let d1 =
        if is_positive num
        then with_timeline login n url base (client.get_issue_timeline (issue_number num)) d0
        else d0 in
      let d2 = with_subject url base subj d1 in
      record {
        from = d2.from;
        to = "";
        subject = forge_subject unicode n url d2.kind;
        source = "forge";
        kind = d2.kind;
        seq = ℤ.pos 0;
        date = d2.date;
        directed = d2.directed;
        traceparent = "";
        body = d2.body;
      }
