-- ===== src/WorkerChannel/Settles.antt =====
-- A proposal that is acknowledged has left its action committed in the outbox, with the response of
-- the acknowledgement.
use botfam.Base.{
  ℕ, ◌≡◌, refl, sym, ap, ◌∙◌, Bool, true, false, ◌&&◌, List, [], ◌∷◌, Option, some, String, eq_refl,
  arith, Result, ok, err, find, Bool-cases, inl, inr, continue, any,
}
use botfam.Store.{OutboxRow, in_progress}
use botfam.Store.Outbox.{
  has_id, has_key, claimable, set_state, is_committed, OutboxResult, existing_result,
  claim_forge_action,
}
use botfam.Store.Outbox.Calls.{Anything}
use botfam.Store.Outbox.Unique.{IsUnique, IsUnique-Preserves, set_state-SameKeys}
use botfam.Store.Outbox.Claim.{other_id}
use botfam.Store.Outbox.Settled.{settled, IsDone, IsSettled, open_row}
use botfam.Store.Outbox.Enqueue.{enqueue_answers}
use botfam.Store.Outbox.Effects.{outbox-claim_true, find-update, change}
use botfam.WorkerChannel.{
  Executor, Service, ForgeAction, ActionAck, Host, parse_fencing_token, default_json,
  propose_enqueued, propose_forge_action, enqueue_and_propose, claimed_or_busy, enqueue_message,
}
use botfam.WorkerChannel.Keeps.{propose_keeps}
use botfam.WorkerChannel.Committed.{IsCommittedAs, execute_row}

settled_of_find :
    (w k : String) (r : OutboxRow) (xs : List OutboxRow)
    → find (has_key w k) xs ≡ some r
    → is_committed r.state ≡ true
    → settled w k xs ≡ some (r.id, r.response_json)
unfolding settled find
settled_of_find w k r [] f c = cc
settled_of_find w k r (x ∷ xs) f c = ground (arith, settled_of_find w k r xs)

no_open_row :
    (id : String) (xs : List OutboxRow) → any (has_id id) xs ≡ false → any (open_row id) xs ≡ false
unfolding any
no_open_row id [] h = refl
no_open_row id (x ∷ xs) h = ground (arith, no_open_row id xs)

-- With distinct ids, no other row has the id of a settled one.
unique-IsDone :
    (w k id response : String) (xs : List OutboxRow)
    → IsUnique xs
    → settled w k xs ≡ some (id, response)
    → IsDone id xs
unfolding settled any
unique-IsDone w k id response [] u h = cc
unique-IsDone w k id response (x ∷ xs) u h = elim (Bool-cases (has_key w k x)) [
  | inl e ↦ record {
    present = ground (arith, eq_refl x.id);
    closed = ground (arith, no_open_row x.id xs);
  }
  | inr e ↦
      let d : IsDone id xs = unique-IsDone w k id response xs u.2 (ground arith) in
      record {
        present = rw d.present (ground arith);
        closed = ground (arith, other_id id x xs d.present u.0, d.closed);
      }
]

claimed_row :
    (w k : String) (r : OutboxRow) (x : Option Executor) (msg : ForgeAction) (token : ℕ)
    (res : OutboxResult) (h : Host) (ack : ActionAck) (c : Result Bool)
    → res.id ≡ r.id
    → find (has_key w k) h.db.tables.outbox ≡ some r
    → c ≡ (claim_forge_action res.id h.db).0
    → (continue c
        (claimed_or_busy x msg token res)
        (record h { db = (claim_forge_action res.id h.db).1 })).0
      ≡ ok ack
    → IsCommittedAs w k
        (continue c
          (claimed_or_busy x msg token res)
          (record h { db = (claim_forge_action res.id h.db).1 })).1.db.tables.outbox
        ack
claimed_row w k r x msg token res h ack (ok true) i f e q = elim (Bool-cases (claimable res.id r)) [
  | inl c ↦
      execute_row w k res.id (set_state in_progress r) (sym i) x msg token res.deduped _ ack
        (after ∙ rw c refl) q
  | inr c ↦ execute_row w k res.id r (sym i) x msg token res.deduped _ ack (after ∙ rw c refl) q
]
  where
    after :
        find (has_key w k) (claim_forge_action res.id h.db).1.tables.outbox
        ≡ change (claimable res.id) (set_state in_progress) (some r)
    after = rw (outbox-claim_true res.id h.db (sym e)) (
        find-update w k (claimable res.id) (set_state in_progress) h.db.tables.outbox
          (set_state-SameKeys in_progress)
        ∙ ap (change (claimable res.id) (set_state in_progress)) f)
claimed_row w k r x msg token res h ack (ok false) i f e q = cc
claimed_row w k r x msg token res h ack (err er) i f e q = cc

enqueued_row :
    (w k : String) (r : OutboxRow) (x : Option Executor) (msg : ForgeAction) (token : ℕ)
    (res : OutboxResult) (h : Host) (ack : ActionAck)
    → find (has_key w k) h.db.tables.outbox ≡ some r
    → existing_result r ≡ record res { deduped = true }
    → (propose_enqueued x msg token res h).0 ≡ ok ack
    → IsCommittedAs w k (propose_enqueued x msg token res h).1.db.tables.outbox ack
unfolding propose_enqueued
enqueued_row w k r x msg token res h ack f e q = elim (Bool-cases (res.deduped && res.committed)) [
  | inl c ↦ rw c (record {
    row = r;
    found = f;
    done = ground arith;
    same_id = ground arith;
    same_response = ground arith;
  })
  | inr c ↦ rw c (
      claimed_row w k r x msg token res h ack (claim_forge_action res.id h.db).0
        (ap (λ (o : OutboxResult). o.id) (sym e)) f refl (rw c at q))
]

message_row :
    (x : Option Executor) (msg : ForgeAction) (token : ℕ) (h : Host) (ack : ActionAck)
    (r : Result OutboxResult)
    → r ≡ (enqueue_message msg token h.db).0
    → (continue r
        (propose_enqueued x msg token)
        (record h { db = (enqueue_message msg token h.db).1 })).0
      ≡ ok ack
    → IsCommittedAs msg.work_item_id msg.action_key
        (continue r
          (propose_enqueued x msg token)
          (record h { db = (enqueue_message msg token h.db).1 })).1.db.tables.outbox
        ack
message_row x msg token h ack (ok res) e q =
    let (row, found, same) =
      enqueue_answers _ msg.work_item_id msg.action_key _ _ token h.db res (sym e) in
    enqueued_row msg.work_item_id msg.action_key row x msg token res _ ack found same q
message_row x msg token h ack (err er) e q = cc

token_row :
    (x : Option Executor) (msg : ForgeAction) (h : Host) (ack : ActionAck) (r : Result ℕ)
    → (continue r (enqueue_and_propose x msg) h).0 ≡ ok ack
    → IsCommittedAs msg.work_item_id msg.action_key
        (continue r (enqueue_and_propose x msg) h).1.db.tables.outbox
        ack
token_row x msg h ack (ok token) q = message_row x msg token h ack _ refl q
token_row x msg h ack (err er) q = cc

propose_row :
    (s : Service) (msg : ForgeAction) (h : Host) (ack : ActionAck)
    → (propose_forge_action s msg h).0 ≡ ok ack
    → IsCommittedAs msg.work_item_id msg.action_key
        (propose_forge_action s msg h).1.db.tables.outbox
        ack
unfolding propose_forge_action
propose_row s msg h ack q = elim (Bool-cases s.db_present) [
  | inl c ↦
      rw c (token_row s.executor msg h ack (parse_fencing_token msg.fencing_header) (rw c at q))
  | inr c ↦ absurd (ground arith)
]

pub propose-IsUnique :
    (s : Service) (msg : ForgeAction) (h : Host)
    → IsUnique h.db.tables.outbox
    → IsUnique (propose_forge_action s msg h).1.db.tables.outbox
propose-IsUnique s msg h u =
    propose_keeps Anything (λ t. IsUnique t.outbox) IsUnique-Preserves (λ _ _ _ _ _ _ _. tt) s msg h
      u

-- An acknowledged action is settled, under the id and with the response of the acknowledgement.
pub propose_settles :
    (s : Service) (msg : ForgeAction) (h : Host) (ack : ActionAck)
    → IsUnique h.db.tables.outbox
    → (propose_forge_action s msg h).0 ≡ ok ack
    → (response : String) × IsSettled msg.work_item_id msg.action_key ack.outbox_id response
        (propose_forge_action s msg h).1.db.tables
      × (ack.response_json ≡ default_json response)
propose_settles s msg h ack u q =
    let c : IsCommittedAs msg.work_item_id msg.action_key
        (propose_forge_action s msg h).1.db.tables.outbox ack =
      propose_row s msg h ack q in
    let row =
      settled_of_find msg.work_item_id msg.action_key c.row
        (propose_forge_action s msg h).1.db.tables.outbox c.found c.done in
    (
      c.row.response_json,
      rw c.same_id (record {
        row = row;
        done =
            unique-IsDone msg.work_item_id msg.action_key c.row.id c.row.response_json _
              (propose-IsUnique s msg h u) row;
      }),
      c.same_response,
    )
