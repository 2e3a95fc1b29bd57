-- ===== src/WorkerChannel/Proposals.antt =====
-- A proposal on its other branches: a fresh action, one in progress, and one whose outbox id is taken.
use text.Mathlib.TextLemmas.{append_assoc}
use Prim.Native.String.{◌++◌ as append}
use botfam.Base.{
  ℕ, ◌≡◌, ◌≢◌, refl, sym, Bool, true, false, ◌&&◌, List, [], ◌∷◌, Option, some, String, eq_refl,
  arith, Result, ok, err, find, any, any-find, Bool-cases, inl, inr, continue,
}
use botfam.Sql.{statement}
use botfam.Store.{Db, OutboxRow, in_progress}
use botfam.Store.Outbox.{
  has_id, has_key, is_committed, is_pending, claimable, OutboxResult, enqueue_forge_action,
}
use botfam.Store.Outbox.Claim.{other_id, not_taken_twice}
use botfam.Store.Outbox.Unique.{IsUnique}
use botfam.Store.Outbox.Enqueue.{enqueue_found, enqueue_found-tables}
use botfam.WorkerChannel.{
  Executor, Service, ForgeAction, ActionAck, Host, parse_fencing_token, outbox_id, propose_enqueued,
  propose_forge_action, enqueue_and_propose, claimed_or_busy, enqueue_message,
}

-- Nothing is executed and nothing is acknowledged.
record IsRefused (h : Host) (out : Result ActionAck × Host) : Type 0 where
  same_calls : out.1.calls ≡ h.calls
  no_ack : (ack : ActionAck) → out.0 ≢ ok ack

-- What holds of the answer of the enqueue holds of the proposal.
module _ (s : Service) (msg : ForgeAction) (h : Host)
    (refused : (token : ℕ) (res : OutboxResult)
      → (enqueue_message msg token h.db).0 ≡ ok res
      → IsRefused h (
          propose_enqueued s.executor msg token res
            (record h { db = (enqueue_message msg token h.db).1 }))) where
  message-IsRefused :
      (token : ℕ) (r : Result OutboxResult)
      → r ≡ (enqueue_message msg token h.db).0
      → IsRefused h (
          continue r
            (propose_enqueued s.executor msg token)
            (record h { db = (enqueue_message msg token h.db).1 }))
  message-IsRefused token (ok res) e = refused token res (sym e)
  message-IsRefused token (err er) e = record { same_calls = refl; no_ack = λ ack q. cc }

  token-IsRefused : (r : Result ℕ) → IsRefused h (continue r (enqueue_and_propose s.executor msg) h)
  token-IsRefused (ok token) = message-IsRefused token _ refl
  token-IsRefused (err er) = record { same_calls = refl; no_ack = λ ack q. cc }

  propose-IsRefused : IsRefused h (propose_forge_action s msg h)
  unfolding propose_forge_action
  propose-IsRefused = elim (Bool-cases s.db_present) [
    | inl e ↦ rw e (token-IsRefused (parse_fencing_token msg.fencing_header))
    | inr e ↦ rw e (record { same_calls = refl; no_ack = λ ack q. cc })
  ]

-- An id that another pair's row has: the insert is ignored, and the SELECT finds no row.
enqueue_id_taken :
    (id w k tool args : String) (token : ℕ) (db : Db) (res : OutboxResult)
    → any (has_id id) db.tables.outbox ≡ true
    → any (has_key w k) db.tables.outbox ≡ false
    → (enqueue_forge_action id w k tool args token db).0 ≢ ok res
unfolding enqueue_forge_action statement
enqueue_id_taken id w k tool args token db res i n q =
    ground (arith, any-find (has_key w k) db.tables.outbox)

outbox_id_collision :
    (a b c : String) → outbox_id (append a (append ":" b)) c ≡ outbox_id a (append b (append ":" c))
unfolding outbox_id
outbox_id_collision a b c = simp append_assoc

-- Two actions whose work item id and action key join to one text with a colon between them get one
-- outbox id. Once one of them is in the outbox, the other is never executed and never acknowledged.
pub colliding_action :
    (a b c : String) (s : Service) (msg : ForgeAction) (h : Host)
    → any (has_id (outbox_id (append a (append ":" b)) c)) h.db.tables.outbox ≡ true
    → any (has_key a (append b (append ":" c))) h.db.tables.outbox ≡ false
    → msg.work_item_id ≡ a
    → msg.action_key ≡ append b (append ":" c)
    → ((propose_forge_action s msg h).1.calls ≡ h.calls)
      × ((ack : ActionAck) → (propose_forge_action s msg h).0 ≢ ok ack)
colliding_action a b c s msg h i n w k =
    let r = propose-IsRefused s msg h λ token res q. absurd (
      enqueue_id_taken _ msg.work_item_id msg.action_key msg.tool_name msg.arguments_json token h.db
        res (rw (w, k) (rw (← outbox_id_collision a b c) i)) (rw (w, k) n) q) in
    (r.same_calls, r.no_ack)

none_claimable :
    (id : String) (xs : List OutboxRow) → any (has_id id) xs ≡ false → any (claimable id) xs ≡ false
unfolding any
none_claimable id [] h = refl
none_claimable id (x ∷ xs) h = ground (arith, none_claimable id xs)

find-has_id :
    (w k : String) (r : OutboxRow) (xs : List OutboxRow)
    → find (has_key w k) xs ≡ some r
    → any (has_id r.id) xs ≡ true
unfolding find any
find-has_id w k r [] f = cc
find-has_id w k r (x ∷ xs) f = ground (arith, find-has_id w k r xs, eq_refl r.id)

-- With distinct ids, a row that cannot be claimed bars the claim of its id.
unique_unclaimable :
    (w k : String) (r : OutboxRow) (xs : List OutboxRow)
    → IsUnique xs
    → find (has_key w k) xs ≡ some r
    → is_pending r.state ≡ false
    → any (claimable r.id) xs ≡ false
unfolding find any
unique_unclaimable w k r [] u f p = refl
unique_unclaimable w k r (x ∷ xs) u f p = elim (Bool-cases (has_key w k x)) [
  | inl e ↦ ground (arith, none_claimable x.id xs u.0)
  | inr e ↦ ground (
    arith,
    unique_unclaimable w k r xs u.2,
    other_id r.id x xs (find-has_id w k r xs (ground arith)) u.0,
  )
]

-- A claim that does not succeed.
claim-IsRefused :
    (x : Option Executor) (msg : ForgeAction) (token : ℕ) (res : OutboxResult) (h : Host) (db : Db)
    (c : Result Bool)
    → c ≢ ok true
    → IsRefused h (continue c (claimed_or_busy x msg token res) (record h { db = db }))
claim-IsRefused x msg token res h db (ok true) n = absurd (n refl)
claim-IsRefused x msg token res h db (ok false) n = record {
  same_calls = refl;
  no_ack = λ ack q. cc;
}
claim-IsRefused x msg token res h db (err e) n = record { same_calls = refl; no_ack = λ ack q. cc }

enqueued-IsRefused :
    (x : Option Executor) (msg : ForgeAction) (token : ℕ) (res : OutboxResult) (h : Host) (db : Db)
    → res.committed ≡ false
    → any (claimable res.id) db.tables.outbox ≡ false
    → any (has_id res.id) db.tables.outbox ≡ true
    → IsRefused h (propose_enqueued x msg token res (record h { db = db }))
unfolding propose_enqueued
enqueued-IsRefused x msg token res h db n u i = elim (Bool-cases (res.deduped && res.committed)) [
  | inl e ↦ absurd (ground arith)
  | inr e ↦ rw e (
      claim-IsRefused x msg token res h _ _
        (not_taken_twice res.id db (record { present = i; unclaimable = u })))
]

-- While an action is in progress, proposing it again executes nothing and is not acknowledged.
pub in_progress_refused :
    (s : Service) (msg : ForgeAction) (h : Host) (r : OutboxRow)
    → IsUnique h.db.tables.outbox
    → find (has_key msg.work_item_id msg.action_key) h.db.tables.outbox ≡ some r
    → r.state ≡ in_progress
    → ((propose_forge_action s msg h).1.calls ≡ h.calls)
      × ((ack : ActionAck) → (propose_forge_action s msg h).0 ≢ ok ack)
in_progress_refused s msg h r u f p =
    let t = propose-IsRefused s msg h λ token res q.
      let e = enqueue_found msg.work_item_id msg.action_key r _ _ _ token h.db res f q in
      let same =
        enqueue_found-tables msg.work_item_id msg.action_key r
          (outbox_id msg.work_item_id msg.action_key) msg.tool_name msg.arguments_json token h.db
          f in
      enqueued-IsRefused s.executor msg token res h _ (rw (e, p) (unfold is_committed in refl))
        (rw (same, e)
          (unique_unclaimable msg.work_item_id msg.action_key r h.db.tables.outbox u f
            (rw p (unfold is_pending in refl))))
        (rw (same, e) (find-has_id msg.work_item_id msg.action_key r h.db.tables.outbox f)) in
    (t.same_calls, t.no_ack)
