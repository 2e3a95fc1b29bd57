-- ===== src/Observe/Adapter.antt =====
-- ForgeDetailQuerier of internal/eventdelivery/observe/detail.go. The forge client is a parameter: what it
-- answers to one call of each method.
use botfam.Base.{
  ℕ, Bool, false, List, [], map, Option, none, some, String, ◌==◌, Result, ok, err, if◌then◌else◌,
}
use botfam.Observe.{kind_pull}
use botfam.Observe.Detail.{CommentRef, ReviewRef, LabelRef, ThreadDetail, Blocker}
use botfam.Observe.Worklist.{User}

pub record Comment : Type 0 where
  pub id : ℕ
  pub updated : Option ℕ
  pub poster : Option User

pub record Review : Type 0 where
  pub id : ℕ
  pub state : String
  pub submitted : Option ℕ
  pub reviewer : Option User

-- A pull request or an issue, as far as the adapter reads it; an issue is not merged and has no head.
pub record Artifact : Type 0 where
  pub state : String
  pub has_merged : Bool
  pub head : Option String
  pub updated : Option ℕ
  pub labels : List LabelRef

pub record Dependency : Type 0 where
  pub index : ℕ
  pub state : String

pub record Client : Type 0 where
  pub repo_slug : String
  pub list_issue_comments : ℕ → Result (List Comment)
  pub get_pr : ℕ → Result Artifact
  pub get_pr_reviews : ℕ → Result (List Review)
  pub get_issue : ℕ → Result Artifact
  pub list_issue_dependencies : ℕ → Result (List Dependency)

abbrev name_of : Option User → String
name_of none = ""
name_of (some u) = u.user_name

abbrev text_of : Option String → String
text_of none = ""
text_of (some s) = s

abbrev pub comment_ref : Comment → CommentRef
comment_ref c = record { id = c.id; updated_at = c.updated; author = name_of c.poster }

abbrev pub review_ref : Review → ReviewRef
review_ref r = record {
  id = r.id;
  state = r.state;
  submitted_at = r.submitted;
  reviewer = name_of r.reviewer;
}

abbrev with_result : {A B : Type 0} → Result A → (A → Result B) → Result B
with_result (ok a) f = f a
with_result (err e) f = err e

abbrev pull_detail : Client → ℕ → List Comment → Artifact → List Review → ThreadDetail
pull_detail c number comments pr reviews = record {
  repo = c.repo_slug;
  kind = kind_pull;
  number = number;
  state = pr.state;
  merged = pr.has_merged;
  head_sha = text_of pr.head;
  updated_at = pr.updated;
  comments = map comment_ref comments;
  reviews = map review_ref reviews;
  labels = pr.labels;
}

abbrev issue_detail : Client → String → ℕ → List Comment → Artifact → ThreadDetail
issue_detail c kind number comments is = record {
  repo = c.repo_slug;
  kind = kind;
  number = number;
  state = is.state;
  merged = false;
  head_sha = "";
  updated_at = is.updated;
  comments = map comment_ref comments;
  reviews = [];
  labels = is.labels;
}

abbrev reviewed_detail : Client → ℕ → List Comment → Artifact → Result ThreadDetail
reviewed_detail c number comments pr =
    with_result (c.get_pr_reviews number) (λ reviews. ok (pull_detail c number comments pr reviews))

abbrev detail_of : Client → String → ℕ → List Comment → Result ThreadDetail
detail_of c kind number comments =
    if kind == kind_pull
    then with_result (c.get_pr number) (reviewed_detail c number comments)
    else with_result (c.get_issue number) (λ is. ok (issue_detail c kind number comments is))

-- ForgeDetailQuerier.FetchThreadDetail
unfoldable pub fetch_thread_detail : Client → String → ℕ → Result ThreadDetail
fetch_thread_detail c kind number =
    with_result (c.list_issue_comments number) (detail_of c kind number)

-- ForgeDetailQuerier.ListBlockers
unfoldable pub list_blockers : Client → ℕ → Result (List Blocker)
list_blockers c number =
    with_result (c.list_issue_dependencies number)
      λ deps. ok (map (λ (d : Dependency). record { number = d.index; state = d.state }) deps)
