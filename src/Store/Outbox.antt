-- ===== src/Store/Outbox.antt =====
-- store.go, the forge action outbox: EnqueueForgeAction, ClaimForgeAction,
-- ReleaseOrphanedForgeActionClaims and RecordForgeActionAttempt. Each SQL statement is one
-- `statement`, named for what it does.
pub mod Calls
pub mod Commit
pub mod Claim
pub mod Unique
pub mod Settled
pub mod Enqueue
pub mod Effects
use botfam.Base.{
  ℕ, zero, suc, ◌+◌, Bool, true, false, ◌&&◌, ◌||◌, not, List, [], ◌∷◌, ◌++◌, Option, none, some,
  String, ◌==◌, nat_eq, Error, engine, foreign_key, no_rows, message, Result, ok, err, Exec, pure,
  raise, continue, ◌>>=◌, ◌>>◌, any, find, update, length, filter, if◌then◌else◌,
}
use botfam.Base.Text.{is_blank}
use botfam.Sql.{Env, World, statement, transaction}
use botfam.Store.{
  Tables, OutboxRow, AttemptRow, WorkItemRow, ActionState, in_progress, committed, Db,
}

pub record OutboxResult : Type 0 where
  pub id : String
  pub deduped : Bool
  pub committed : Bool
  pub response_json : String

abbrev pub has_id : String → OutboxRow → Bool
has_id id r = r.id == id

abbrev pub has_key : String → String → OutboxRow → Bool
has_key work_item_id action_key r = r.work_item_id == work_item_id && r.action_key == action_key

unfoldable pub is_pending : ActionState → Bool
is_pending ActionState.pending = true
is_pending _ = false

unfoldable pub is_in_progress : ActionState → Bool
is_in_progress in_progress = true
is_in_progress _ = false

unfoldable pub is_committed : ActionState → Bool
is_committed committed = true
is_committed _ = false

-- work_item_id REFERENCES work_items(id)
abbrev work_item_exists : Env → Tables → String → Bool
work_item_exists env t id =
    not env.foreign_keys || any (λ (r : WorkItemRow). r.id == id) t.work_items

-- outbox_id REFERENCES forge_action_outbox(id)
abbrev outbox_exists : Env → Tables → String → Bool
outbox_exists env t id = not env.foreign_keys || any (has_id id) t.outbox

abbrev pub new_row : String → String → String → String → String → ℕ → ℕ → OutboxRow
new_row id work_item_id action_key tool_name arguments_json fencing_token now = record {
  id = id;
  work_item_id = work_item_id;
  action_key = action_key;
  tool_name = tool_name;
  arguments_json = arguments_json;
  fencing_token = fencing_token;
  state = ActionState.pending;
  created_at = now;
  committed_at = none;
  response_json = "{}";
}

-- INSERT OR IGNORE INTO forge_action_outbox: the rows affected. A row with the id, or with the
-- UNIQUE pair, makes the insert nothing; a missing work item is an error.
abbrev insert_row : OutboxRow → Env → Tables → Result (ℕ × Tables)
insert_row r env t =
    if any (has_id r.id) t.outbox || any (has_key r.work_item_id r.action_key) t.outbox
    then ok (0, t)
    else if work_item_exists env t r.work_item_id
    then ok (1, record t { outbox = t.outbox ++ r ∷ [] })
    else err foreign_key

abbrev or_no_rows : Option OutboxRow → Tables → Result (OutboxRow × Tables)
or_no_rows none t = err no_rows
or_no_rows (some r) t = ok (r, t)

-- SELECT id, state, response_json … WHERE work_item_id = ? AND action_key = ?
abbrev select_row : String → String → Env → Tables → Result (OutboxRow × Tables)
select_row work_item_id action_key env t =
    or_no_rows (find (has_key work_item_id action_key) t.outbox) t

abbrev pub existing_result : OutboxRow → OutboxResult
existing_result r = record {
  id = r.id;
  deduped = true;
  committed = is_committed r.state;
  response_json = r.response_json;
}

unfoldable pub enqueue_forge_action :
    String → String → String → String → String → ℕ → Exec Db OutboxResult
enqueue_forge_action id work_item_id action_key tool_name arguments_json fencing_token =
    if is_blank id || is_blank work_item_id || is_blank action_key
    then raise (message "id, work item id, and action key are required")
    else do
      rows ← statement λ env.
          insert_row
            (new_row id work_item_id action_key tool_name arguments_json fencing_token env.now) env
      if nat_eq rows 1
          then pure (record { id = id; deduped = false; committed = false; response_json = "{}" })
          else do r ← statement (select_row work_item_id action_key); pure (existing_result r)

abbrev pub claimable : String → OutboxRow → Bool
claimable id r = r.id == id && is_pending r.state

abbrev pub set_state : ActionState → OutboxRow → OutboxRow
set_state s r = record r { state = s }

-- UPDATE … SET … WHERE: the rows affected
abbrev update_outbox :
    (OutboxRow → Bool) → (OutboxRow → OutboxRow) → Env → Tables → Result (ℕ × Tables)
update_outbox p f env t = ok (length (filter p t.outbox), record t { outbox = update p f t.outbox })

unfoldable pub claim_forge_action : String → Exec Db Bool
claim_forge_action id = if is_blank id then raise (message "outbox id is required") else do
  rows ← statement (update_outbox (claimable id) (set_state in_progress))
  pure (nat_eq rows 1)

unfoldable pub release_orphaned_forge_action_claims : Exec Db ℕ
release_orphaned_forge_action_claims =
    statement (update_outbox (λ r. is_in_progress r.state) (set_state ActionState.pending))

abbrev new_attempt : String → ℕ → String → String → ℕ → AttemptRow
new_attempt id fencing_token result response_json now = record {
  outbox_id = id;
  fencing_token = fencing_token;
  attempted_at = now;
  result = result;
  response_json = response_json;
}

-- INSERT INTO action_attempts
abbrev insert_attempt : AttemptRow → Env → Tables → Result (Unit {0} × Tables)
insert_attempt a env t =
    if outbox_exists env t a.outbox_id
    then ok (tt, record t { attempts = t.attempts ++ a ∷ [] })
    else err foreign_key

abbrev pub coalesce : Option ℕ → ℕ → Option ℕ
coalesce none now = some now
coalesce (some t) now = some t

abbrev pub set_committed : String → ℕ → OutboxRow → OutboxRow
set_committed response_json now r = record r {
  state = committed;
  committed_at = coalesce r.committed_at now;
  response_json = response_json;
}

abbrev pub reclaimable : String → OutboxRow → Bool
reclaimable id r = r.id == id && is_in_progress r.state

-- the body of the transaction of RecordForgeActionAttempt
unfoldable pub attempt_body : String → ℕ → String → String → Exec Db (Unit {0})
attempt_body id fencing_token result response_json = do
  statement λ env. insert_attempt (new_attempt id fencing_token result response_json env.now) env
  if result == "committed"
      then (do
        statement λ env. update_outbox (has_id id) (set_committed response_json env.now) env
        pure tt)
      else do statement (update_outbox (reclaimable id) (set_state ActionState.pending)); pure tt

unfoldable pub record_forge_action_attempt : String → ℕ → String → String → Exec Db (Unit {0})
record_forge_action_attempt id fencing_token result response_json =
    if is_blank id
    then raise (message "outbox id is required")
    else if is_blank result
    then raise (message "attempt result is required")
    else transaction (
        attempt_body id fencing_token result
          (if is_blank response_json then "{}" else response_json))
