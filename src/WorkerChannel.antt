-- ===== src/WorkerChannel.antt =====
-- internal/eventdelivery/workerchannel/server.go: the supervisor's side of a worker's connection.
-- The forge executor is a parameter: what it answers may depend on the calls that it has executed
-- before, and `calls` is the list of these, oldest first.
mod Keeps
mod Committed
mod Settles
pub mod ExactlyOnce
pub mod Proposals
pub mod Fresh
pub mod Services
use Prim.Native.Char.{code}
use Prim.Native.String.{◌++◌ as append}
use botfam.Base.{
  ℕ, ◌+◌, ◌-◌, ◌*◌, ◌^◌, Bool, true, false, ◌&&◌, List, [], ◌∷◌, ◌++◌, Option, none, some, String,
  ◌==◌, ltb, leb, Error, message, Result, ok, err, Exec, pure, raise, ignore, continue, ◌>>=◌, ◌>>◌,
  if◌then◌else◌,
}
use botfam.Base.Text.{trim_space, is_blank}
use botfam.Store.{Db}
use botfam.Store.Outbox.{
  OutboxResult, enqueue_forge_action, claim_forge_action, record_forge_action_attempt,
}

pub record ForgeCall : Type 0 where
  pub tool_name : String
  pub arguments_json : String

-- ForgeExecutor, with the text that fmt's %q makes of its error.
pub record Executor : Type 0 where
  pub execute : List ForgeCall → String → String → Result String
  pub quote_error : Error → String

-- Service: `s.DB == nil` is `db_present = false`, and `s.Executor == nil` is `none`.
pub record Service : Type 0 where
  pub db_present : Bool
  pub executor : Option Executor

-- The message of ProposeForgeAction and its Botfam-Fencing-Token header, "" if it is absent.
pub record ForgeAction : Type 0 where
  pub work_item_id : String
  pub action_key : String
  pub tool_name : String
  pub arguments_json : String
  pub fencing_header : String

pub record ActionAck : Type 0 where
  pub committed : Bool
  pub deduped : Bool
  pub outbox_id : String
  pub response_json : String

-- What a proposal can change: the database, and what the forge has been told to do.
pub record Host : Type 0 where
  pub db : Db
  pub calls : List ForgeCall

abbrev pub put_db : {A : Type 0} → Result A × Db → Host → Result A × Host
put_db (r, db) h = (r, record h { db = db })

abbrev pub on_db : {A : Type 0} → Exec Db A → Exec Host A
on_db m h = put_db (m h.db) h

-- The digits of strconv.ParseUint in base 10, with the value read so far.
parse_digits : String → ℕ → Option ℕ
parse_digits String.[] n = some n
parse_digits (String.◌∷◌ c s) n =
    let rest = parse_digits s (n * 10 + (code c - 48)) in
    if leb 48 (code c) && leb (code c) 57 then rest else none

abbrev in_range : Option ℕ → Option ℕ
in_range none = none
in_range (some n) = if ltb n (2 ^ 64) then some n else none

-- strconv.ParseUint(s, 10, 64)
unfoldable pub parse_uint : String → Option ℕ
unfolding parse_digits
parse_uint s = if s == "" then none else in_range (parse_digits s 0)

abbrev or_invalid : Option ℕ → Result ℕ
or_invalid none = err (message "invalid Botfam-Fencing-Token header")
or_invalid (some n) = ok n

unfoldable pub parse_fencing_token : String → Result ℕ
parse_fencing_token header =
    let raw = trim_space header in if raw == "" then ok 0 else or_invalid (parse_uint raw)

unfoldable pub outbox_id : String → String → String
outbox_id work_item_id action_key =
    append "forge-action:" (append work_item_id (append ":" action_key))

unfoldable pub default_json : String → String
default_json s = if is_blank s then "{}" else s

abbrev pub lift : {S A : Type 0} → Result A → Exec S A
lift r s = (r, s)

-- s.Executor.ExecuteForgeAction: the call is made, and its answer is kept as a value.
unfoldable pub run_executor : Executor → String → String → Exec Host (Result String)
run_executor e tool args h = (
  ok (e.execute h.calls tool args),
  record h { calls = h.calls ++ record { tool_name = tool; arguments_json = args } ∷ [] },
)

-- The error is recorded as an attempt, whose own error is dropped, and returned.
abbrev pub fail_attempt : String → ℕ → String → Error → Exec Host ActionAck
fail_attempt id token json e = do
  ignore (on_db (record_forge_action_attempt id token "error" json))
  raise e

abbrev pub acknowledge : String → Bool → String → Unit {0} → Exec Host ActionAck
acknowledge id deduped response _ =
    pure (record { committed = true; deduped = deduped; outbox_id = id; response_json = response })

abbrev pub finish_action : Executor → String → ℕ → Bool → Result String → Exec Host ActionAck
finish_action x id token deduped (err e) =
    fail_attempt id token (append "{\"error\":" (append (x.quote_error e) "}")) e
finish_action x id token deduped (ok response) =
    on_db (record_forge_action_attempt id token "committed" (default_json response))
    >>= acknowledge id deduped (default_json response)

-- ProposeForgeAction from the test of the executor on: the action is claimed.
unfoldable pub execute_claimed :
    Option Executor → ForgeAction → String → ℕ → Bool → Exec Host ActionAck
execute_claimed none msg id token deduped =
    fail_attempt id token "{\"error\":\"workerchannel: forge executor is required\"}"
      (message "workerchannel: forge executor is required")
execute_claimed (some x) msg id token deduped = do
  answer ← run_executor x msg.tool_name msg.arguments_json
  finish_action x id token deduped answer

abbrev pub claimed_or_busy :
    Option Executor → ForgeAction → ℕ → OutboxResult → Bool → Exec Host ActionAck
claimed_or_busy x msg token res claimed =
    if claimed
    then execute_claimed x msg res.id token res.deduped
    else raise
        (message (append "workerchannel: forge action " (append res.id " is already in progress")))

-- ProposeForgeAction from the answer of EnqueueForgeAction on.
unfoldable pub propose_enqueued :
    Option Executor → ForgeAction → ℕ → OutboxResult → Exec Host ActionAck
propose_enqueued x msg token res =
    if res.deduped && res.committed
    then pure (record {
      committed = res.committed;
      deduped = true;
      outbox_id = res.id;
      response_json = default_json res.response_json;
    })
    else on_db (claim_forge_action res.id) >>= claimed_or_busy x msg token res

abbrev pub enqueue_message : ForgeAction → ℕ → Exec Db OutboxResult
enqueue_message msg token =
    enqueue_forge_action (outbox_id msg.work_item_id msg.action_key) msg.work_item_id msg.action_key
      msg.tool_name msg.arguments_json token

abbrev pub enqueue_and_propose : Option Executor → ForgeAction → ℕ → Exec Host ActionAck
enqueue_and_propose x msg token = do
  res ← on_db (enqueue_message msg token)
  propose_enqueued x msg token res

unfoldable pub propose_forge_action : Service → ForgeAction → Exec Host ActionAck
propose_forge_action s msg =
    if s.db_present
    then lift (parse_fencing_token msg.fencing_header) >>= enqueue_and_propose s.executor msg
    else raise (message "workerchannel: db is required")
