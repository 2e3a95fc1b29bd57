-- ===== src/Tests/Polling.antt =====
-- A poll, a dispatch and a run on concrete data.
use botfam.Base.{false, ℕ, filter, ◌≡◌, refl, true, List, [], ◌∷◌, ◌++◌, any, none, some, ◌==◌, ok}
use botfam.Base.Text.{join, is_blank, trim_space}
use botfam.Sql.{World, transaction, statement, faulty}
use botfam.Store.{Db, RunRow, WorkState}
use botfam.Store.Records.{start_run, start_run_again}
use botfam.Store.Pending.{WorkItem, pending_work_items, order_rows, insert_row, take, item_of}
use botfam.Store.Pending.Order.{IsQueue, pending_in_order}
use botfam.WorkerChannel.{Service}
use botfam.WorkerChannel.Services.{Stream, send_items, dispatch_work, dispatch_sends_pending}
use botfam.Store.Files.{Disk, gitignore_contents, trimmed}
use botfam.Store.Migrations.{
  Migration, Catalog, AllApplied, apply_migrations, apply_from, apply_migration, migration_body,
  apply_migrations_again,
}
use botfam.Observe.{Observation, event_id}
use botfam.Observe.Dedupe.{IsDistinct, has_event}
use botfam.Observe.Worklist.{PullRequest, Observer, resolve_actor, poll, review_observation}
use botfam.Observe.Poll.{IsDue, IsAnswered, review, poll_complete}
use botfam.Tests.Outbox.{item, start}

abbrev pull : PullRequest
pull = record {
  index = 5;
  title = "p";
  state = "open";
  html_url = "";
  updated = none;
  assignees = [];
  assignee = none;
  requested_reviewers = none ∷ some (record { user_name = "me" }) ∷ [];
  poster = none;
  head = some "abc";
}

abbrev observer : Observer
observer = record {
  q = record {
    auth_login = ok "me";
    repo_slug = "o/r";
    list_open_issues_assigned_to = λ actor. ok [];
    list_open_pulls = ok (pull ∷ []);
    list_all_unread_notifications = ok [];
  };
  encoders = record { must_json = λ p. p.title; rfc3339 = λ t. "" };
  wm = record { start = 50 };
  actor = "";
}

abbrev requested : Observation
requested = review_observation observer.encoders "o/r" pull

login_test : (resolve_actor observer).0 ≡ ok "me"
unfolding resolve_actor
login_test = refl

answered : IsAnswered observer "me" [] (pull ∷ []) []
answered = record {
  login = login_test;
  issues_listed = refl;
  pulls_listed = refl;
  threads_listed = refl;
}

due : IsDue observer "me" [] (pull ∷ []) [] requested
unfolding any
due = review [] pull [] refl refl refl

poll_complete_example :
    (out : List Observation) × ((poll observer).0 ≡ ok out)
    × IsDistinct out
    × (any (has_event (event_id requested)) out ≡ true)
poll_complete_example = poll_complete observer "me" [] (pull ∷ []) [] requested answered due

abbrev queued : Db
queued = record start {
  tables = record start.tables {
    work_items =
        record item { id = "wi:2"; created_at = 8 }
        ∷ record item { id = "wi:3"; state = WorkState.running }
        ∷ item
        ∷ [];
  };
}

abbrev items : List WorkItem
items = item_of item ∷ item_of (record item { id = "wi:2"; created_at = 8 }) ∷ []

pending_test : (pending_work_items 100 queued).0 ≡ ok items
unfolding pending_work_items statement order_rows insert_row take filter
pending_test = refl

pending_in_order_example : IsQueue 100 queued.tables.work_items items
pending_in_order_example = pending_in_order 100 queued items pending_test

abbrev stream : Stream
stream = record { sent = []; faults = [] }

abbrev service : Service
service = record { db_present = true; executor = none }

dispatch_test : (dispatch_work service queued stream).0 ≡ ok tt
unfolding dispatch_work send_items pending_work_items statement order_rows insert_row take filter
dispatch_test = refl

dispatch_sends_pending_example :
    (sent : List WorkItem) × IsQueue 100 queued.tables.work_items sent
    × ((dispatch_work service queued stream).2.sent ≡ [] ++ sent)
dispatch_sends_pending_example = dispatch_sends_pending service queued stream dispatch_test

start_test : (start_run "r1" "s1" queued).0 ≡ ok tt
unfolding start_run is_blank trim_space statement any
start_test = refl

blank_test : is_blank "s2" ≡ false
unfolding is_blank trim_space
blank_test = refl

fault_test : faulty (start_run "r1" "s1" queued).1.faults ≡ false
unfolding start_run is_blank trim_space statement any
fault_test = refl

start_run_again_example :
    let later = (start_run "r1" "s1" queued).1 in
    (any (λ (r : RunRow). r.id == "r1") later.tables.runs ≡ true)
    × ((start_run "r1" "s2" later).0 ≡ ok tt)
    × ((start_run "r1" "s2" later).1.tables ≡ later.tables)
start_run_again_example = start_run_again "r1" "s1" "s2" queued start_test blank_test fault_test

abbrev migration : Migration ℕ
migration = record { version = 1; name = "initial"; sql = λ s. ok 7 }

abbrev catalog : World (Catalog ℕ)
catalog = record {
  tables = record { versions = []; schema = 0 };
  env = record { foreign_keys = true; now = 1 };
  faults = [];
}

migrated_test : (apply_migrations (migration ∷ []) catalog).0 ≡ ok tt
unfolding apply_migrations apply_from apply_migration migration_body transaction statement filter
migrated_test = refl

apply_migrations_again_example :
    AllApplied (migration ∷ []) (apply_migrations (migration ∷ []) catalog).1.tables
    × ((apply_migrations (migration ∷ []) (apply_migrations (migration ∷ []) catalog).1).1.tables
        ≡ (apply_migrations (migration ∷ []) catalog).1.tables)
apply_migrations_again_example = apply_migrations_again (migration ∷ []) catalog migrated_test

abbrev disk : Disk
disk = record {
  content = some "old";
  temporary = none;
  faults = false ∷ false ∷ false ∷ false ∷ false ∷ false ∷ true ∷ true ∷ [];
}

gitignore_test :
    gitignore_contents (" *.pid " ∷ "" ∷ []) ≡ "session.db\nsession.db-wal\nsession.db-shm\n*.pid\n"
unfolding gitignore_contents trimmed trim_space join
gitignore_test = refl
