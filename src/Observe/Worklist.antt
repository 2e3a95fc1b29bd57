-- ===== src/Observe/Worklist.antt =====
-- internal/eventdelivery/observe: worklist.go, and the Observer's methods of observer.go and
-- bootstrap.go. The forge is a parameter, the record Querier: what it answers during one poll.
-- json.Marshal and the format of times are the parameter Encoders; the zero time and nil are `none`.
use Prim.Native.String.{◌++◌ as append}
use botfam.Base.{
  ℕ, Bool, false, not, ◌&&◌, ◌||◌, List, [], ◌∷◌, ◌++◌, map, Option, none, some, String, ◌==◌, any,
  nat_eq, message, Result, ok, err, Exec, pure, ◌>>=◌, if◌then◌else◌,
}
use botfam.Base.Text.{format_int}
use botfam.Observe.{
  Observation, SessionWatermark, source_forge, kind_issue, kind_pull, class_query_only,
  class_stable_id, class_synthetic_id, event_assigned_open, event_review_requested, event_push,
  event_notification, dedupe,
}
use botfam.Observe.Subject.{Notification, subject_kind, subject_number, repo_slug, notification_key}

pub record ArtifactPayload : Type 0 where
  pub number : ℕ
  pub title : String
  pub state : String
  pub html_url : String
  pub head_sha : String
  pub updated_at : String

-- mustJSON of a payload, and Format(time.RFC3339).
pub record Encoders : Type 0 where
  pub must_json : ArtifactPayload → String
  pub rfc3339 : ℕ → String

pub record User : Type 0 where
  pub user_name : String

pub record Issue : Type 0 where
  pub index : ℕ
  pub title : String
  pub state : String
  pub html_url : String
  pub updated : Option ℕ

pub record PullRequest : Type 0 where
  pub index : ℕ
  pub title : String
  pub state : String
  pub html_url : String
  pub updated : Option ℕ
  pub assignees : List (Option User)
  pub assignee : Option User
  pub requested_reviewers : List (Option User)
  pub poster : Option User
  pub head : Option String

pub record Querier : Type 0 where
  pub auth_login : Result String
  pub repo_slug : String
  pub list_open_issues_assigned_to : String → Result (List Issue)
  pub list_open_pulls : Result (List PullRequest)
  pub list_all_unread_notifications : Result (List Notification)

pub record Observer : Type 0 where
  pub q : Querier
  pub encoders : Encoders
  pub wm : SessionWatermark
  pub actor : String

abbrev pub user_is : String → Option User → Bool
user_is login none = false
user_is login (some u) = u.user_name == login

abbrev pub user_in_list : String → List (Option User) → Bool
user_in_list login users = any (user_is login) users

abbrev pub head_sha : PullRequest → String
head_sha pr = elim pr.head [ none ↦ "" | some sha ↦ sha ]

abbrev format_time : Encoders → Option ℕ → String
format_time e none = ""
format_time e (some t) = e.rfc3339 t

abbrev pub issue_payload : Encoders → Issue → String
issue_payload e is = e.must_json (record {
  number = is.index;
  title = is.title;
  state = is.state;
  html_url = is.html_url;
  head_sha = "";
  updated_at = format_time e is.updated;
})

abbrev pub pull_payload : Encoders → PullRequest → String
pull_payload e pr = e.must_json (record {
  number = pr.index;
  title = pr.title;
  state = pr.state;
  html_url = pr.html_url;
  head_sha = head_sha pr;
  updated_at = format_time e pr.updated;
})

abbrev pub notification_payload : Encoders → Notification → String
notification_payload e t = e.must_json (record {
  number = subject_number t;
  title = t.subject_title;
  state = t.subject_state;
  html_url = t.subject_html_url;
  head_sha = "";
  updated_at = t.updated;
})

abbrev pub issue_observation : Encoders → String → String → Issue → Observation
issue_observation e actor repo is = record {
  source = source_forge;
  repo = repo;
  artifact_kind = kind_issue;
  artifact_number = is.index;
  notification_thread_id = "";
  event_kind = event_assigned_open;
  event_key = "standing";
  event_class = class_query_only;
  source_query = append "GET /repos/" (append repo (append "/issues?state=open&assignee=" actor));
  payload_json = issue_payload e is;
}

abbrev open_pulls_query : String → String
open_pulls_query repo = append "GET /repos/" (append repo "/pulls?state=open")

abbrev pub assigned_observation : Encoders → String → PullRequest → Observation
assigned_observation e repo pr = record {
  source = source_forge;
  repo = repo;
  artifact_kind = kind_pull;
  artifact_number = pr.index;
  notification_thread_id = "";
  event_kind = event_assigned_open;
  event_key = "standing";
  event_class = class_query_only;
  source_query = open_pulls_query repo;
  payload_json = pull_payload e pr;
}

abbrev pub review_observation : Encoders → String → PullRequest → Observation
review_observation e repo pr = record (assigned_observation e repo pr) {
  event_kind = event_review_requested;
  source_query = append (open_pulls_query repo) " (filter requested_reviewers)";
}

abbrev pub push_observation : Encoders → String → PullRequest → Observation
push_observation e repo pr = record (assigned_observation e repo pr) {
  event_kind = event_push;
  event_key = head_sha pr;
  event_class = class_stable_id;
  source_query = append (open_pulls_query repo) " (filter poster, compare head.sha)";
}

abbrev pub only_if : Bool → Observation → List Observation
only_if b o = if b then o ∷ [] else []

abbrev pub is_assigned : String → PullRequest → Bool
is_assigned actor pr = user_in_list actor pr.assignees || user_is actor pr.assignee

abbrev pub is_pushed : String → PullRequest → Bool
is_pushed actor pr = user_is actor pr.poster && not (head_sha pr == "")

-- The body of the loop of Standing over the pull requests.
abbrev pub pull_observations : Encoders → String → String → PullRequest → List Observation
pull_observations e actor repo pr =
    only_if (is_assigned actor pr) (assigned_observation e repo pr)
    ++ only_if (user_in_list actor pr.requested_reviewers) (review_observation e repo pr)
    ++ only_if (is_pushed actor pr) (push_observation e repo pr)

unfoldable pub pulls_observations : Encoders → String → String → List PullRequest → List Observation
pulls_observations e actor repo [] = []
pulls_observations e actor repo (pr ∷ pulls) =
    pull_observations e actor repo pr ++ pulls_observations e actor repo pulls

abbrev pub lift : {A : Type 0} → Result A → Exec Observer A
lift r o = (r, o)

abbrev cache_actor : String → Exec Observer String
cache_actor actor o =
    if actor == ""
    then (err (message "forge returned empty actor login"), o)
    else (ok actor, record o { actor = actor })

-- Observer.Actor
unfoldable pub resolve_actor : Exec Observer String
resolve_actor o =
    if not (o.actor == "") then (ok o.actor, o) else (lift o.q.auth_login >>= cache_actor) o

abbrev pub standing_of :
    Encoders → String → String → List Issue → List PullRequest → List Observation
standing_of e actor repo issues pulls =
    map (issue_observation e actor repo) issues ++ pulls_observations e actor repo pulls

abbrev standing_for : String → Exec Observer (List Observation)
standing_for actor o =
    (do
      issues ← lift (o.q.list_open_issues_assigned_to actor)
      pulls ← lift o.q.list_open_pulls
      pure (standing_of o.encoders actor o.q.repo_slug issues pulls))
      o

-- Observer.Standing
unfoldable pub standing : Exec Observer (List Observation)
standing = resolve_actor >>= standing_for

abbrev pub notification_observation : Encoders → Notification → Observation
notification_observation e t = record {
  source = source_forge;
  repo = repo_slug t;
  artifact_kind = subject_kind t.subject_type;
  artifact_number = subject_number t;
  notification_thread_id = format_int t.id;
  event_kind = event_notification;
  event_key = notification_key t;
  event_class = class_synthetic_id;
  source_query = "GET /notifications?status-types=unread";
  payload_json = notification_payload e t;
}

abbrev pub is_imported : Notification → Bool
is_imported t = t.unread && not (subject_kind t.subject_type == "" || nat_eq (subject_number t) 0)

-- The loop of Bootstrap.
unfoldable pub import_threads : Encoders → List Notification → List Observation
import_threads e [] = []
import_threads e (t ∷ threads) =
    let rest = import_threads e threads in
    if is_imported t then notification_observation e t ∷ rest else rest

-- Observer.Bootstrap
unfoldable pub bootstrap : Exec Observer (List Observation)
bootstrap o =
    (do threads ← lift o.q.list_all_unread_notifications; pure (import_threads o.encoders threads))
      o

-- Observer.Poll
unfoldable pub poll : Exec Observer (List Observation)
poll = do worklist ← standing; unread ← bootstrap; pure (dedupe (worklist ++ unread))
