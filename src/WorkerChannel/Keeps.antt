-- ===== src/WorkerChannel/Keeps.antt =====
-- A property of the tables that each call on the outbox keeps is kept by a proposal.
use botfam.Base.{
  ℕ, ◌≡◌, refl, Bool, true, false, ◌&&◌, Option, none, some, String, Result, ok, err, Bool-cases,
  inl, inr, continue, Exec,
}
use botfam.Sql.Laws.{Keeps}
use botfam.Store.{Tables, Db}
use botfam.Store.Outbox.{OutboxResult, claim_forge_action, record_forge_action_attempt}
use botfam.Store.Outbox.Calls.{Call, records, Preserves, enqueue-Keeps, claim-Keeps, record-Keeps}
use botfam.WorkerChannel.{
  Executor, Service, ForgeAction, Host, parse_fencing_token, default_json, run_executor,
  finish_action, execute_claimed, propose_enqueued, propose_forge_action, enqueue_and_propose,
  acknowledge, claimed_or_busy, enqueue_message,
}

-- `P` of the tables is kept by `m`.
abbrev HostKeeps : {A : Type 0} → (Tables → Type 0) → Exec Host A → Type 0
HostKeeps P m = (h : Host) → P h.db.tables → P (m h).1.db.tables

module _ (P : Tables → Type 0) (id : String) (token : ℕ) where
  abbrev RecordKeeps : Type 0
  RecordKeeps =
      (result response : String) → Keeps P (record_forge_action_attempt id token result response)

  commit_keeps :
      (response : String) (deduped : Bool) (h : Host) (r : Result (Unit {0})) (db : Db)
      → P db.tables
      → P (continue r (acknowledge id deduped response) (record h { db = db })).1.db.tables
  commit_keeps response deduped h (ok u) db p = p
  commit_keeps response deduped h (err e) db p = p

  finish_keeps :
      (x : Executor) (deduped : Bool) (answer : Result String)
      → RecordKeeps
      → HostKeeps P (finish_action x id token deduped answer)
  finish_keeps x deduped (err e) k h p = (k "error" _).at h.db p
  finish_keeps x deduped (ok response) k h p =
      let done = record_forge_action_attempt id token "committed" (default_json response) h.db in
      commit_keeps (default_json response) deduped h done.0 done.1 ((k "committed" _).at h.db p)

  execute_keeps :
      (x : Option Executor) (msg : ForgeAction) (deduped : Bool)
      → RecordKeeps
      → HostKeeps P (execute_claimed x msg id token deduped)
  unfolding execute_claimed run_executor
  execute_keeps none msg deduped k h p = (k "error" _).at h.db p
  execute_keeps (some x) msg deduped k h p =
      finish_keeps x deduped (x.execute h.calls msg.tool_name msg.arguments_json) k _ p

-- A proposal keeps what each call on the outbox keeps, if an attempt is recorded only for an action
-- that was claimed.
module _ (Allowed : Call → Type 0) (P : Tables → Type 0) (keeps : Preserves Allowed P)
    (claimed : (id : String) (db : Db)
      → P db.tables
      → (claim_forge_action id db).0 ≡ ok true
      → (token : ℕ) (result response : String) → Allowed (records id token result response)) where
  claimed_keeps :
      (x : Option Executor) (msg : ForgeAction) (token : ℕ) (res : OutboxResult) (h : Host)
      (r : Result Bool) (db : Db)
      → P db.tables
      → (r ≡ ok true → RecordKeeps P res.id token)
      → P (continue r (claimed_or_busy x msg token res) (record h { db = db })).1.db.tables
  claimed_keeps x msg token res h (ok true) db p k =
      execute_keeps P res.id token x msg res.deduped (k refl) _ p
  claimed_keeps x msg token res h (ok false) db p k = p
  claimed_keeps x msg token res h (err e) db p k = p

  enqueued_keeps :
      (x : Option Executor) (msg : ForgeAction) (token : ℕ) (res : OutboxResult)
      → HostKeeps P (propose_enqueued x msg token res)
  unfolding propose_enqueued
  enqueued_keeps x msg token res h p = elim (Bool-cases (res.deduped && res.committed)) [
    | inl e ↦ rw e p
    | inr e ↦ rw e (
        let got = claim_forge_action res.id h.db in
        claimed_keeps x msg token res h got.0 got.1 ((claim-Keeps keeps res.id).at h.db p)
          λ c result response.
            record-Keeps keeps res.id token result response
              (claimed res.id h.db p c token result response))
  ]

  message_keeps :
      (x : Option Executor) (msg : ForgeAction) (token : ℕ) (h : Host) (r : Result OutboxResult)
      (db : Db)
      → P db.tables
      → P (continue r (propose_enqueued x msg token) (record h { db = db })).1.db.tables
  message_keeps x msg token h (ok res) db p = enqueued_keeps x msg token res _ p
  message_keeps x msg token h (err e) db p = p

  token_keeps :
      (x : Option Executor) (msg : ForgeAction) (h : Host) (r : Result ℕ)
      → P h.db.tables
      → P (continue r (enqueue_and_propose x msg) h).1.db.tables
  token_keeps x msg h (ok token) p =
      let got = enqueue_message msg token h.db in
      message_keeps x msg token h got.0 got.1
        ((enqueue-Keeps keeps _ msg.work_item_id msg.action_key _ _ token).at h.db p)
  token_keeps x msg h (err e) p = p

  pub propose_keeps : (s : Service) (msg : ForgeAction) → HostKeeps P (propose_forge_action s msg)
  unfolding propose_forge_action
  propose_keeps s msg h p = elim (Bool-cases s.db_present) [
    | inl e ↦ rw e (token_keeps s.executor msg h (parse_fencing_token msg.fencing_header) p)
    | inr e ↦ rw e p
  ]
