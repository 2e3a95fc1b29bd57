-- ===== src/WorkerChannel/Fresh.antt =====
-- A fresh action is executed once and acknowledged, if nothing fails.
use Prim.Native.String.{◌++◌ as append}
use text.Mathlib.TextLemmas.{cons-append}
use botfam.Base.{
  ℕ, ◌≡◌, refl, Bool, true, false, List, [], ◌∷◌, ◌++◌, some, String, ◌==◌, eq_refl, arith, ok,
  update, filter, any, length, any-append,
}
use botfam.Base.Text.{is_blank, is_blank-cons, is_space}
use botfam.Sql.{statement, transaction, skip}
use botfam.Store.Outbox.Effects.{outbox-claim_true, stored}
use botfam.Store.Outbox.Unique.{any-has_id-update, set_state-SameKeys}
use botfam.Store.{Db, OutboxRow, WorkItemRow, ActionState, in_progress}
use botfam.Store.Outbox.{
  has_id, has_key, is_pending, claimable, set_state, new_row, enqueue_forge_action,
  claim_forge_action, record_forge_action_attempt, attempt_body,
}
use botfam.WorkerChannel.{
  Executor, Service, ForgeAction, Host, parse_fencing_token, default_json, outbox_id, run_executor,
  execute_claimed, propose_enqueued, propose_forge_action,
}

outbox_id_not_blank : (w k : String) → is_blank (outbox_id w k) ≡ false
unfolding outbox_id is_space
outbox_id_not_blank w k =
    rw (cons-append "f" "orge-action:" (append w (append ":" k))) (is_blank-cons "f" _ refl)

-- No row has the id or the pair, and the work item is there.
pub record IsNew (id w k : String) (db : Db) : Type 0 where
  pub no_id : any (has_id id) db.tables.outbox ≡ false
  pub no_key : any (has_key w k) db.tables.outbox ≡ false
  pub work_item : any (λ (r : WorkItemRow). r.id == w) db.tables.work_items ≡ true
  pub no_faults : db.faults ≡ []

abbrev with_row : Db → OutboxRow → Db
with_row db r = record db { tables = record db.tables { outbox = db.tables.outbox ++ r ∷ [] } }

enqueue_new :
    (id w k tool args : String) (token : ℕ) (db : Db)
    → is_blank id ≡ false
    → is_blank w ≡ false
    → is_blank k ≡ false
    → IsNew id w k db
    → enqueue_forge_action id w k tool args token db ≡ (
      ok (record { id = id; deduped = false; committed = false; response_json = "{}" }),
      with_row db (new_row id w k tool args token db.env.now),
    )
unfolding enqueue_forge_action statement
enqueue_new id w k tool args token db bi bw bk n = ground arith

filter-claimable-none :
    (id : String) (xs : List OutboxRow) → any (has_id id) xs ≡ false → filter (claimable id) xs ≡ []
unfolding any filter
filter-claimable-none id [] h = refl
filter-claimable-none id (x ∷ xs) h = ground (arith, filter-claimable-none id xs)

filter-append :
    (p : OutboxRow → Bool) (xs ys : List OutboxRow)
    → filter p (xs ++ ys) ≡ filter p xs ++ filter p ys
unfolding filter
filter-append p [] ys = refl
filter-append p (x ∷ xs) ys = ground (arith, filter-append p xs ys)

one_claimable :
    (r : OutboxRow) (xs : List OutboxRow)
    → any (has_id r.id) xs ≡ false
    → r.state ≡ ActionState.pending
    → length (filter (claimable r.id) (xs ++ r ∷ [])) ≡ 1
unfolding filter is_pending
one_claimable r xs n p =
    rw (filter-append (claimable r.id) xs (r ∷ []), filter-claimable-none r.id xs n)
      (ground (arith, eq_refl r.id))

any_self : (r : OutboxRow) → any (has_id r.id) (r ∷ []) ≡ true
unfolding any
any_self r = rw eq_refl refl

claim_new :
    (r : OutboxRow) (db : Db)
    → any (has_id r.id) db.tables.outbox ≡ false
    → is_blank r.id ≡ false
    → r.state ≡ ActionState.pending
    → db.faults ≡ []
    → let out = claim_forge_action r.id (with_row db r) in
      (out.0 ≡ ok true) × (out.1.faults ≡ []) × (any (has_id r.id) out.1.tables.outbox ≡ true)
unfolding claim_forge_action statement
claim_new r db n b p f =
    (done, ground arith, rw (outbox-claim_true r.id (with_row db r) done) there)
  where
    done : (claim_forge_action r.id (with_row db r)).0 ≡ ok true
    done = ground (arith, one_claimable r db.tables.outbox n p)

    there :
        any
          (has_id r.id)
          (update (claimable r.id) (set_state in_progress) (db.tables.outbox ++ r ∷ []))
        ≡ true
    there =
        rw
          (any-has_id-update (claimable r.id) (set_state in_progress)
            (set_state-SameKeys in_progress) r.id (db.tables.outbox ++ r ∷ []))
          (rw (any-append (has_id r.id) db.tables.outbox (r ∷ [])) (rw n (any_self r)))

not_blank_committed : is_blank "committed" ≡ false
unfolding is_blank
not_blank_committed = refl

attempt_new :
    (id : String) (token : ℕ) (response : String) (db : Db)
    → any (has_id id) db.tables.outbox ≡ true
    → db.faults ≡ []
    → ((attempt_body id token "committed" response db).0 ≡ ok tt)
      × ((attempt_body id token "committed" response db).1.faults ≡ [])
unfolding attempt_body statement
attempt_new id token response db i f = ground arith

record_new :
    (id : String) (token : ℕ) (response : String) (db : Db)
    → is_blank id ≡ false
    → any (has_id id) db.tables.outbox ≡ true
    → db.faults ≡ []
    → (record_forge_action_attempt id token "committed" response db).0 ≡ ok tt
unfolding record_forge_action_attempt transaction
record_new id token response db b i f =
    ground (arith, not_blank_committed, attempt_new id token (stored response) (skip db))

-- When no row has the id or the pair, the work item exists, no engine error comes and the executor
-- answers, a proposal with a readable header and no blank key is acknowledged, and the forge is
-- called once more, with the tool and the arguments of the message.
pub propose_fresh :
    (s : Service) (x : Executor) (msg : ForgeAction) (h : Host) (token : ℕ) (response : String)
    → s.db_present ≡ true
    → s.executor ≡ some x
    → parse_fencing_token msg.fencing_header ≡ ok token
    → is_blank msg.work_item_id ≡ false
    → is_blank msg.action_key ≡ false
    → IsNew (outbox_id msg.work_item_id msg.action_key) msg.work_item_id msg.action_key h.db
    → x.execute h.calls msg.tool_name msg.arguments_json ≡ ok response
    → ((propose_forge_action s msg h).0
        ≡ ok (record {
          committed = true;
          deduped = false;
          outbox_id = outbox_id msg.work_item_id msg.action_key;
          response_json = default_json response;
        }))
      × ((propose_forge_action s msg h).1.calls
          ≡ h.calls
            ++ record { tool_name = msg.tool_name; arguments_json = msg.arguments_json } ∷ [])
unfolding propose_forge_action propose_enqueued execute_claimed run_executor
propose_fresh s x msg h token response d e t bw bk n a =
    let id = outbox_id msg.work_item_id msg.action_key in
    let row =
      new_row id msg.work_item_id msg.action_key msg.tool_name msg.arguments_json token
        h.db.env.now in
    let queued =
      enqueue_new id msg.work_item_id msg.action_key msg.tool_name msg.arguments_json token h.db
        (outbox_id_not_blank msg.work_item_id msg.action_key) bw bk n in
    let claimed =
      claim_new row h.db n.no_id (outbox_id_not_blank msg.work_item_id msg.action_key) refl
        n.no_faults in
    let done =
      record_new id token (default_json response) (claim_forge_action id (with_row h.db row)).1
        (outbox_id_not_blank msg.work_item_id msg.action_key) claimed.2 claimed.1 in
    rw (d, t, queued) (ground (arith, claimed.0, done, e, a))
