-- ===== src/Tests/Proposals.antt =====
-- internal/eventdelivery/workerchannel on a concrete host.
use botfam.Base.{
  ◌≡◌, ◌≢◌, refl, true, false, [], ◌∷◌, none, some, String, ok, ◌==◌, any, find, filter, update,
}
use botfam.Base.Text.{is_blank, trim_space}
use botfam.Sql.{statement, transaction}
use botfam.Store.{OutboxRow, WorkItemRow, in_progress}
use botfam.Store.Outbox.{
  enqueue_forge_action, claim_forge_action, record_forge_action_attempt, attempt_body, is_pending,
  is_in_progress, is_committed, has_id, has_key,
}
use botfam.Store.Outbox.Unique.{IsUnique}
use botfam.WorkerChannel.{
  Executor, Service, ForgeAction, ActionAck, Host, parse_fencing_token, parse_uint, default_json,
  outbox_id, run_executor, execute_claimed, propose_enqueued, propose_forge_action,
}
use botfam.WorkerChannel.ExactlyOnce.{restarts, serve, exactly_once}
use botfam.WorkerChannel.Proposals.{colliding_action, in_progress_refused}
use botfam.WorkerChannel.Fresh.{propose_fresh}
use botfam.Tests.Outbox.{start}

abbrev executor : Executor
executor = record {
  execute = λ calls tool args. ok "{\"merged\":true}";
  quote_error = λ e. "\"failed\"";
}

abbrev service : Service
service = record { db_present = true; executor = some executor }

abbrev merge : ForgeAction
merge = record {
  work_item_id = "wi:1";
  action_key = "merge";
  tool_name = "forge_merge";
  arguments_json = "{}";
  fencing_header = " 18 ";
}

abbrev host : Host
host = record { db = start; calls = [] }

abbrev merged : ActionAck
merged = record {
  committed = true;
  deduped = false;
  outbox_id = "forge-action:wi:1:merge";
  response_json = "{\"merged\":true}";
}

merge_test : (propose_forge_action service merge host).0 ≡ ok merged
unfolding propose_forge_action propose_enqueued execute_claimed run_executor parse_fencing_token
    parse_uint default_json outbox_id enqueue_forge_action claim_forge_action
    record_forge_action_attempt attempt_body statement transaction is_blank trim_space any find
    filter update is_pending is_in_progress is_committed
merge_test = refl

abbrev first : Host
first = (propose_forge_action service merge host).1

exactly_once_example :
    let later = serve (restarts ∷ []) first in
    let out = propose_forge_action service (record merge { tool_name = "forge_close" }) later in
    (out.1.calls ≡ later.calls)
    × ((ack' : ActionAck)
        → out.0 ≡ ok ack'
        → ack' ≡ record {
          committed = true;
          deduped = true;
          outbox_id = "forge-action:wi:1:merge";
          response_json = "{\"merged\":true}";
        })
exactly_once_example =
    exactly_once service merge host merged (restarts ∷ []) service
      (record merge { tool_name = "forge_close" }) tt merge_test refl refl

-- The action `merge` of the work item `wi:1` is in the outbox; `1:merge` of `wi` gets its id.
taken_test : any (has_id "forge-action:wi:1:merge") first.db.tables.outbox ≡ true
unfolding propose_forge_action propose_enqueued execute_claimed run_executor parse_fencing_token
    parse_uint default_json outbox_id enqueue_forge_action claim_forge_action
    record_forge_action_attempt attempt_body statement transaction is_blank trim_space any find
    filter update is_pending is_in_progress is_committed
taken_test = refl

other_pair_test : any (has_key "wi" "1:merge") first.db.tables.outbox ≡ false
unfolding propose_forge_action propose_enqueued execute_claimed run_executor parse_fencing_token
    parse_uint default_json outbox_id enqueue_forge_action claim_forge_action
    record_forge_action_attempt attempt_body statement transaction is_blank trim_space any find
    filter update is_pending is_in_progress is_committed
other_pair_test = refl

abbrev other : ForgeAction
other = record merge { work_item_id = "wi"; action_key = "1:merge" }

colliding_action_example :
    ((propose_forge_action service other first).1.calls ≡ first.calls)
    × ((ack : ActionAck) → (propose_forge_action service other first).0 ≢ ok ack)
colliding_action_example =
    colliding_action "wi" "1" "merge" service other first (unfold outbox_id in taken_test)
      other_pair_test refl refl

abbrev busy_row : OutboxRow
busy_row = record {
  id = "forge-action:wi:1:merge";
  work_item_id = "wi:1";
  action_key = "merge";
  tool_name = "forge_merge";
  arguments_json = "{}";
  fencing_token = 18;
  state = in_progress;
  created_at = 7;
  committed_at = none;
  response_json = "{}";
}

abbrev busy : Host
busy = record host { db = record start { tables = record start.tables { outbox = busy_row ∷ [] } } }

busy_test : find (has_key "wi:1" "merge") busy.db.tables.outbox ≡ some busy_row
unfolding find
busy_test = refl

busy-IsUnique : IsUnique busy.db.tables.outbox
unfolding any
busy-IsUnique = (refl, refl, tt)

in_progress_refused_example :
    ((propose_forge_action service merge busy).1.calls ≡ [])
    × ((ack : ActionAck) → (propose_forge_action service merge busy).0 ≢ ok ack)
in_progress_refused_example =
    in_progress_refused service merge busy busy_row busy-IsUnique busy_test refl

token_test : parse_fencing_token " 18 " ≡ ok 18
unfolding parse_fencing_token parse_uint trim_space
token_test = refl

not_blank_test : (is_blank "wi:1" ≡ false) × (is_blank "merge" ≡ false)
unfolding is_blank trim_space
not_blank_test = (refl, refl)

no_row_test : (s : String) → any (has_id s) host.db.tables.outbox ≡ false
unfolding any
no_row_test s = refl

no_pair_test : any (has_key "wi:1" "merge") host.db.tables.outbox ≡ false
unfolding any
no_pair_test = refl

work_item_test : any (λ (r : WorkItemRow). r.id == "wi:1") host.db.tables.work_items ≡ true
unfolding any
work_item_test = refl

propose_fresh_example :
    ((propose_forge_action service merge host).0
      ≡ ok (record {
        committed = true;
        deduped = false;
        outbox_id = outbox_id "wi:1" "merge";
        response_json = default_json "{\"merged\":true}";
      }))
    × ((propose_forge_action service merge host).1.calls
        ≡ record { tool_name = "forge_merge"; arguments_json = "{}" } ∷ [])
propose_fresh_example =
    propose_fresh service executor merge host 18 "{\"merged\":true}" refl refl token_test
      not_blank_test.0 not_blank_test.1
      (record {
        no_id = no_row_test _;
        no_key = no_pair_test;
        work_item = work_item_test;
        no_faults = refl;
      })
      refl
