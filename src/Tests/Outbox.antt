-- ===== src/Tests/Outbox.antt =====
-- The outbox of internal/eventdelivery/store on concrete tables.
use botfam.Base.{◌≡◌, ◌≢◌, refl, true, false, List, [], ◌∷◌, some, ok, any, find, filter, update}
use botfam.Base.Text.{is_blank}
use botfam.Sql.{statement, transaction}
use botfam.Store.{Db, WorkItemRow, WorkState, empty_tables}
use botfam.Store.Outbox.{
  enqueue_forge_action, claim_forge_action, record_forge_action_attempt, attempt_body, is_pending,
  is_in_progress, is_committed,
}
use botfam.Store.Outbox.Calls.{Call, enqueues, claims, releases, records, run, step}
use botfam.Store.Outbox.Commit.{commit_time, committed_forever}
use botfam.Store.Outbox.Claim.{claim_exclusive}
use botfam.Store.Outbox.Unique.{IsUnique, run-IsUnique}
use botfam.Store.Outbox.Enqueue.{enqueue_twice}

abbrev pub item : WorkItemRow
item = record {
  id = "wi:1";
  raw_observation_id = some "e1";
  kind = "rebuild_pr";
  source_id = "e1";
  title = "Head SHA changed";
  body = "";
  scope_generation = 1;
  state = WorkState.pending;
  created_at = 5;
}

-- One work item, foreign keys on, and no engine errors.
abbrev pub start : Db
start = record {
  tables = record empty_tables { work_items = item ∷ [] };
  env = record { foreign_keys = true; now = 7 };
  faults = [];
}

abbrev one_commit : List Call
one_commit =
    enqueues "a1" "wi:1" "merge" "forge_merge" "{}" 3
    ∷ claims "a1"
    ∷ records "a1" 3 "committed" "{\"ok\":1}"
    ∷ []

abbrev queued : Db
queued = run (enqueues "a1" "wi:1" "merge" "forge_merge" "{}" 3 ∷ []) start

commit_test : commit_time "a1" (run one_commit start).tables.outbox ≡ some 7
unfolding run step enqueue_forge_action claim_forge_action record_forge_action_attempt attempt_body
    statement transaction is_blank any find filter update is_pending is_in_progress is_committed
    commit_time
commit_test = refl

committed_forever_example :
    commit_time "a1"
      (run
        (releases ∷ claims "a1" ∷ records "a1" 4 "error" "" ∷ [])
        (run one_commit start)).tables.outbox
    ≡ some 7
committed_forever_example =
    committed_forever (releases ∷ claims "a1" ∷ records "a1" 4 "error" "" ∷ [])
      (run one_commit start) "a1" 7 commit_test

claim_test : (claim_forge_action "a1" queued).0 ≡ ok true
unfolding run step enqueue_forge_action claim_forge_action statement is_blank any find filter update
    is_pending
claim_test = refl

claim_exclusive_example :
    (claim_forge_action "a1" (
      run
        (enqueues "a2" "wi:1" "close" "forge_close" "{}" 3 ∷ claims "a2" ∷ [])
        (claim_forge_action "a1" queued).1)).0
    ≢ ok true
claim_exclusive_example =
    claim_exclusive "a1" (enqueues "a2" "wi:1" "close" "forge_close" "{}" 3 ∷ claims "a2" ∷ [])
      queued (tt, (tt, tt)) claim_test

run-IsUnique_example : IsUnique (run one_commit start).tables.outbox
run-IsUnique_example = run-IsUnique one_commit start tt

first_test :
    (enqueue_forge_action "a1" "wi:1" "merge" "forge_merge" "{}" 3 start).0
    ≡ ok (record { id = "a1"; deduped = false; committed = false; response_json = "{}" })
unfolding enqueue_forge_action statement is_blank any
first_test = refl

enqueue_twice_example :
    (enqueue_forge_action "b" "wi:1" "merge" "forge_close" "[]" 9
      (enqueue_forge_action "a1" "wi:1" "merge" "forge_merge" "{}" 3 start).1).1.tables
    ≡ (enqueue_forge_action "a1" "wi:1" "merge" "forge_merge" "{}" 3 start).1.tables
enqueue_twice_example =
    (enqueue_twice "a1" "wi:1" "merge" "forge_merge" "{}" 3 "b" "forge_close" "[]" 9 start _
      first_test).0
