-- ===== src/WorkerChannel/Committed.antt =====
-- From the claim of an action to its acknowledgement: its row is committed.
use botfam.Base.{
  ℕ, ◌≡◌, refl, sym, ◌∙◌, Bool, true, false, List, Option, none, some, String, eq_iff, arith,
  Result, ok, err, find, continue,
}
use botfam.Base.Text.{is_blank}
use botfam.Store.{OutboxRow}
use botfam.Store.Outbox.{has_id, has_key, set_committed, is_committed, record_forge_action_attempt}
use botfam.Store.Outbox.Unique.{set_committed-SameKeys}
use botfam.Store.Outbox.Effects.{outbox-record_committed, stored, find-update}
use botfam.WorkerChannel.{
  Executor, ForgeAction, ActionAck, Host, default_json, run_executor, finish_action,
  execute_claimed, acknowledge,
}

is_blank_braces : is_blank "{}" ≡ false
unfolding is_blank
is_blank_braces = refl

default_json_idem : (s : String) → default_json (default_json s) ≡ default_json s
unfolding default_json
default_json_idem s = ground (arith, is_blank_braces)

stored_lem : (s : String) → stored s ≡ default_json s
unfolding default_json
stored_lem s = refl

-- The row of the pair, in the outbox after a proposal.
pub record IsCommittedAs (w k : String) (xs : List OutboxRow) (ack : ActionAck) : Type 0 where
  pub row : OutboxRow
  pub found : find (has_key w k) xs ≡ some row
  pub done : is_committed row.state ≡ true
  pub same_id : ack.outbox_id ≡ row.id
  pub same_response : ack.response_json ≡ default_json row.response_json

module _ (w k id : String) (r : OutboxRow) (i : r.id ≡ id) where
  commit_row :
      (response : String) (token : ℕ) (deduped : Bool) (h : Host) (ack : ActionAck)
      → find (has_key w k) h.db.tables.outbox ≡ some r
      → (finish_result : Result (Unit {0}))
      → finish_result
        ≡ (record_forge_action_attempt id token "committed" (default_json response) h.db).0
      → (continue finish_result (acknowledge id deduped (default_json response)) (record h {
        db = (record_forge_action_attempt id token "committed" (default_json response) h.db).1;
      })).0
        ≡ ok ack
      → IsCommittedAs w k
          (continue finish_result (acknowledge id deduped (default_json response)) (record h {
            db = (record_forge_action_attempt id token "committed" (default_json response) h.db).1;
          })).1.db.tables.outbox
          ack
  unfolding is_committed
  commit_row response token deduped h ack f (ok u) e q = record {
    row = set_committed (stored (default_json response)) h.db.env.now r;
    found = rw (outbox-record_committed id token (default_json response) h.db (sym e)) (
        find-update w k (has_id id) (set_committed (stored (default_json response)) h.db.env.now)
          h.db.tables.outbox (set_committed-SameKeys _ _)
        ∙ rw f (rw ((eq_iff r.id id).1 i) refl));
    done = refl;
    same_id = ground arith;
    same_response = ground (arith, stored_lem (default_json response), default_json_idem response);
  }
  commit_row response token deduped h ack f (err x) e q = cc

  finish_row :
      (x : Executor) (token : ℕ) (deduped : Bool) (answer : Result String) (h : Host)
      (ack : ActionAck)
      → find (has_key w k) h.db.tables.outbox ≡ some r
      → (finish_action x id token deduped answer h).0 ≡ ok ack
      → IsCommittedAs w k (finish_action x id token deduped answer h).1.db.tables.outbox ack
  finish_row x token deduped (err e) h ack f q = cc
  finish_row x token deduped (ok response) h ack f q =
      commit_row response token deduped h ack f _ refl q

  pub execute_row :
      (x : Option Executor) (msg : ForgeAction) (token : ℕ) (deduped : Bool) (h : Host)
      (ack : ActionAck)
      → find (has_key w k) h.db.tables.outbox ≡ some r
      → (execute_claimed x msg id token deduped h).0 ≡ ok ack
      → IsCommittedAs w k (execute_claimed x msg id token deduped h).1.db.tables.outbox ack
  unfolding execute_claimed run_executor
  execute_row none msg token deduped h ack f q = cc
  execute_row (some x) msg token deduped h ack f q =
      finish_row x token deduped (x.execute h.calls msg.tool_name msg.arguments_json) _ ack f q
