-- ===== src/WorkerChannel/ExactlyOnce.antt =====
-- A forge action that a worker was told is committed is not executed again, by no later proposal and
-- after no restart of the supervisor.
use botfam.Base.{
  ℕ, ◌≡◌, ◌≢◌, refl, ◌∙◌, true, List, [], ◌∷◌, Option, String, arith, Result, ok, err, Bool-cases,
  inl, inr, continue,
}
use botfam.Store.{Db}
use botfam.Store.Outbox.{OutboxResult, claim_forge_action, release_orphaned_forge_action_claims}
use botfam.Store.Outbox.Calls.{release-Keeps}
use botfam.Store.Outbox.Unique.{IsUnique}
use botfam.Store.Outbox.Claim.{not_taken_twice}
use botfam.Store.Outbox.Settled.{
  Spares, IsDone-IsTaken, IsSettled, IsSettled-Preserves, enqueue_settled, settled_result,
}
use botfam.WorkerChannel.{
  Executor, Service, ForgeAction, ActionAck, Host, on_db, parse_fencing_token, default_json,
  propose_enqueued, propose_forge_action, enqueue_and_propose,
}
use botfam.WorkerChannel.Keeps.{propose_keeps}
use botfam.WorkerChannel.Settles.{propose_settles}

-- A proposal of a worker, or the release of all claims with which OpenSessionRepo starts.
pub data Event : Type 0 where
  proposes : Service → ForgeAction → Event
  restarts : Event

unfoldable pub react : Event → Host → Host
react (proposes s msg) h = (propose_forge_action s msg h).1
react restarts h = (on_db release_orphaned_forge_action_claims h).1

unfoldable pub serve : List Event → Host → Host
serve [] h = h
serve (e ∷ es) h = serve es (react e h)

module _ (w k id response : String) where
  settled_other :
      (other : String) (db : Db)
      → IsSettled w k id response db.tables
      → (claim_forge_action other db).0 ≡ ok true
      → other ≢ id
  settled_other other db s c e =
      not_taken_twice id db (IsDone-IsTaken id db.tables.outbox s.done) (rw e at c)

  react_keeps :
      (e : Event) (h : Host)
      → IsSettled w k id response h.db.tables
      → IsSettled w k id response (react e h).db.tables
  unfolding react
  react_keeps (proposes s msg) h p =
      propose_keeps (Spares id) (IsSettled w k id response) (IsSettled-Preserves w k id response)
        (λ other db q c token result stored. settled_other other db q c) s msg h p
  react_keeps restarts h p = (release-Keeps (IsSettled-Preserves w k id response) tt).at h.db p

  serve_keeps :
      (es : List Event) (h : Host)
      → IsSettled w k id response h.db.tables
      → IsSettled w k id response (serve es h).db.tables
  unfolding serve
  serve_keeps [] h p = p
  serve_keeps (e ∷ es) h p = serve_keeps es (react e h) (react_keeps e h p)

abbrev settled_ack : String → String → ActionAck
settled_ack id response = record {
  committed = true;
  deduped = true;
  outbox_id = id;
  response_json = default_json response;
}

-- Nothing is executed, and an acknowledgement is the stored one.
record IsQuiet (id response : String) (h : Host) (out : Result ActionAck × Host) : Type 0 where
  same_calls : out.1.calls ≡ h.calls
  answer : (ack : ActionAck) → out.0 ≡ ok ack → ack ≡ settled_ack id response

module _ (msg : ForgeAction) (id response : String) where
  answered-IsQuiet :
      (x : Option Executor) (token : ℕ) (h : Host) (r : Result OutboxResult) (db : Db)
      → ((res : OutboxResult)
          → r ≡ ok res
          → res ≡ settled_result msg.work_item_id msg.action_key id response)
      → IsQuiet id response h (continue r (propose_enqueued x msg token) (record h { db = db }))
  unfolding propose_enqueued
  answered-IsQuiet x token h (ok res) db k =
      rw (k res refl) (record { same_calls = refl; answer = λ ack e. cc })
  answered-IsQuiet x token h (err e) db k = record { same_calls = refl; answer = λ ack e. cc }

  token-IsQuiet :
      (x : Option Executor) (h : Host) (r : Result ℕ)
      → IsSettled msg.work_item_id msg.action_key id response h.db.tables
      → IsQuiet id response h (continue r (enqueue_and_propose x msg) h)
  token-IsQuiet x h (ok token) s =
      answered-IsQuiet x token h _ _
        (λ res. enqueue_settled msg.work_item_id msg.action_key id response _ _ _ token h.db res s)
  token-IsQuiet x h (err e) s = record { same_calls = refl; answer = λ ack e. cc }

  propose-IsQuiet :
      (s : Service) (h : Host)
      → IsSettled msg.work_item_id msg.action_key id response h.db.tables
      → IsQuiet id response h (propose_forge_action s msg h)
  unfolding propose_forge_action
  propose-IsQuiet s h p = elim (Bool-cases s.db_present) [
    | inl e ↦ rw e (token-IsQuiet s.executor h (parse_fencing_token msg.fencing_header) p)
    | inr e ↦ rw e (record { same_calls = refl; answer = λ ack e. cc })
  ]

-- Once a worker has been told that an action is committed, then after any further proposals and
-- restarts, and whatever errors the engine reports, proposing the same (work item, action key) pair
-- executes nothing at the forge; and if it is acknowledged, the acknowledgement says `Committed` and
-- `Deduped` with the outbox id and the response of the first one.
pub exactly_once :
    (s : Service) (msg : ForgeAction) (h : Host) (ack : ActionAck) (es : List Event) (s' : Service)
    (again : ForgeAction)
    → IsUnique h.db.tables.outbox
    → (propose_forge_action s msg h).0 ≡ ok ack
    → again.work_item_id ≡ msg.work_item_id
    → again.action_key ≡ msg.action_key
    → let later = serve es (propose_forge_action s msg h).1 in
      let out = propose_forge_action s' again later in
      (out.1.calls ≡ later.calls)
      × ((ack' : ActionAck)
          → out.0 ≡ ok ack'
          → ack' ≡ record {
            committed = true;
            deduped = true;
            outbox_id = ack.outbox_id;
            response_json = ack.response_json;
          })
exactly_once s msg h ack es s' again u q w k =
    let (response, first, same) = propose_settles s msg h ack u q in
    let quiet =
      propose-IsQuiet again ack.outbox_id response s' (serve es (propose_forge_action s msg h).1) (
        rw (w, k)
          (serve_keeps msg.work_item_id msg.action_key ack.outbox_id response es
            (propose_forge_action s msg h).1 first)) in
    (quiet.same_calls, λ ack' e. quiet.answer ack' e ∙ ground (arith, same))
