-- ===== src/Observe/Detail.antt =====
-- internal/eventdelivery/observe/detail.go: the kinds of events and work items, and what the forge tells
-- of a thread. The forge is a parameter, the record DetailQuerier. The zero time is `none`.
use botfam.Base.{ℕ, Bool, false, not, List, Option, none, some, String, ◌==◌, ltb, Result, Exec}

abbrev pub event_comment : String
event_comment = "comment"

abbrev pub event_review : String
event_review = "review"

abbrev pub event_state_changed : String
event_state_changed = "state_changed"

abbrev pub event_label_set : String
event_label_set = "label_set"

abbrev pub event_status : String
event_status = "status_changed"

abbrev pub work_inspect_new_comment : String
work_inspect_new_comment = "inspect_new_comment"

abbrev pub work_inspect_new_review : String
work_inspect_new_review = "inspect_new_review"

abbrev pub work_refresh_scope : String
work_refresh_scope = "refresh_scope"

abbrev pub work_rebuild_pr : String
work_rebuild_pr = "rebuild_pr"

abbrev pub work_check_failed_run : String
work_check_failed_run = "check_failed_run"

pub record CommentRef : Type 0 where
  pub id : ℕ
  pub updated_at : Option ℕ
  pub author : String

pub record ReviewRef : Type 0 where
  pub id : ℕ
  pub state : String
  pub submitted_at : Option ℕ
  pub reviewer : String

pub record LabelRef : Type 0 where
  pub id : ℕ
  pub name : String

pub record ThreadDetail : Type 0 where
  pub repo : String
  pub kind : String
  pub number : ℕ
  pub state : String
  pub merged : Bool
  pub head_sha : String
  pub updated_at : Option ℕ
  pub comments : List CommentRef
  pub reviews : List ReviewRef
  pub labels : List LabelRef

pub record Blocker : Type 0 where
  pub number : ℕ
  pub state : String

-- Blocker.Open
abbrev pub is_open : Blocker → Bool
is_open b = not (b.state == "closed")

-- DetailQuerier, what it answers to one call of each method, with the text of fmt's %q.
pub record DetailQuerier : Type 0 where
  pub repo_slug : String
  pub fetch_thread_detail : String → ℕ → Result ThreadDetail
  pub list_blockers : ℕ → Result (List Blocker)
  pub combined_status_state : String → Result String
  pub quote : String → String

abbrev pub lift : {S A : Type 0} → Result A → Exec S A
lift r s = (r, s)

-- t.After(baseline); the zero time is before every other time
abbrev pub after : Option ℕ → ℕ → Bool
after none baseline = false
after (some t) baseline = ltb baseline t
