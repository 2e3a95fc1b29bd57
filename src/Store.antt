-- ===== src/Store.antt =====
-- internal/eventdelivery/store/store.go: the tables of session.db that the event delivery uses.
-- Each record is one CREATE TABLE of the migrations, a table is the list of its rows in the order
-- of insertion, and a row number of AUTOINCREMENT is its place in the list. Times are the
-- milliseconds that strftime('now') prints, which have the order of the printed texts.
pub mod Outbox
pub mod Records
pub mod Pending
pub mod Migrations
pub mod Files
use botfam.Base.{
  ℕ, ◌≡◌, Bool, true, false, ◌&&◌, ◌||◌, not, List, [], ◌∷◌, ◌++◌, Option, none, some, String, ◌==◌,
  if◌then◌else◌,
}
use botfam.Sql.{World}

pub record RunRow : Type 0 where
  pub id : String
  pub session_id : String
  pub started_at : ℕ

pub record ObservationRow : Type 0 where
  pub id : String
  pub run_id : String
  pub source : String
  pub repo : String
  pub artifact_kind : String
  pub artifact_number : ℕ
  pub notification_thread_id : Option String
  pub event_kind : String
  pub event_key : String
  pub event_class : String
  pub source_query : String
  pub payload_json : String
  pub observed_at : ℕ

-- The `state` columns: what the statements of the program write there.
pub data WorkState : Type 0 where
  pending running completed failed : WorkState

pub record WorkItemRow : Type 0 where
  pub id : String
  pub raw_observation_id : Option String
  pub kind : String
  pub source_id : String
  pub title : String
  pub body : String
  pub scope_generation : ℕ
  pub state : WorkState
  pub created_at : ℕ

pub record TransitionRow : Type 0 where
  pub work_item_id : String
  pub to_state : WorkState
  pub reason : String
  pub transitioned_at : ℕ

pub data ActionState : Type 0 where
  pending in_progress committed : ActionState

pub record OutboxRow : Type 0 where
  pub id : String
  pub work_item_id : String
  pub action_key : String
  pub tool_name : String
  pub arguments_json : String
  pub fencing_token : ℕ
  pub state : ActionState
  pub created_at : ℕ
  pub committed_at : Option ℕ
  pub response_json : String

pub record AttemptRow : Type 0 where
  pub outbox_id : String
  pub fencing_token : ℕ
  pub attempted_at : ℕ
  pub result : String
  pub response_json : String

pub record ArtifactRow : Type 0 where
  pub id : String
  pub work_item_id : String
  pub kind : String
  pub uri : String
  pub sha256 : String
  pub created_at : ℕ

pub record SpanRow : Type 0 where
  pub trace_id : String
  pub span_id : String
  pub component : String
  pub event_type : String
  pub payload_json : String
  pub timestamp : String

pub record GitActionRow : Type 0 where
  pub id : String
  pub run_id : Option String
  pub action : String
  pub trace_id : String
  pub span_id : String
  pub payload_json : String
  pub created_at : ℕ

pub record Tables : Type 0 where
  pub runs : List RunRow
  pub observations : List ObservationRow
  pub work_items : List WorkItemRow
  pub transitions : List TransitionRow
  pub outbox : List OutboxRow
  pub attempts : List AttemptRow
  pub artifacts : List ArtifactRow
  pub spans : List SpanRow
  pub git_log : List GitActionRow

abbrev pub empty_tables : Tables
empty_tables = record {
  runs = [];
  observations = [];
  work_items = [];
  transitions = [];
  outbox = [];
  attempts = [];
  artifacts = [];
  spans = [];
  git_log = [];
}

abbrev pub Db : Type 0
Db = World Tables
