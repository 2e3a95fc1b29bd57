-- ===== src/Store/Outbox/Effects.antt =====
-- What a claim and a recorded attempt that succeed have done to the outbox.
use botfam.Base.{
  ℕ, ◌≡◌, refl, Bool, true, List, [], ◌∷◌, Option, none, some, String, arith, find, update, ok,
  if◌then◌else◌,
}
use botfam.Base.Text.{is_blank}
use botfam.Sql.{statement, transaction, skip}
use botfam.Store.{Db, OutboxRow, in_progress}
use botfam.Store.Outbox.{
  has_id, has_key, claimable, set_state, set_committed, claim_forge_action,
  record_forge_action_attempt, attempt_body,
}
use botfam.Store.Outbox.Unique.{SameKeys}

pub outbox-claim_true :
    (id : String) (db : Db)
    → (claim_forge_action id db).0 ≡ ok true
    → (claim_forge_action id db).1.tables.outbox
      ≡ update (claimable id) (set_state in_progress) db.tables.outbox
unfolding claim_forge_action statement
outbox-claim_true id db h = ground arith

-- The response that RecordForgeActionAttempt stores.
abbrev pub stored : String → String
stored response = if is_blank response then "{}" else response

attempt_body_committed :
    (id : String) (token : ℕ) (response : String) (db : Db)
    → (attempt_body id token "committed" response db).0 ≡ ok tt
    → (attempt_body id token "committed" response db).1.tables.outbox
      ≡ update (has_id id) (set_committed response db.env.now) db.tables.outbox
unfolding attempt_body statement
attempt_body_committed id token response db h = ground arith

pub outbox-record_committed :
    (id : String) (token : ℕ) (response : String) (db : Db)
    → (record_forge_action_attempt id token "committed" response db).0 ≡ ok tt
    → (record_forge_action_attempt id token "committed" response db).1.tables.outbox
      ≡ update (has_id id) (set_committed (stored response) db.env.now) db.tables.outbox
unfolding record_forge_action_attempt transaction
outbox-record_committed id token response db h =
    ground (arith, attempt_body_committed id token (stored response) (skip db))

abbrev pub change :
    (OutboxRow → Bool) → (OutboxRow → OutboxRow) → Option OutboxRow → Option OutboxRow
change p f none = none
change p f (some r) = some (if p r then f r else r)

pub find-update :
    (w k : String) (p : OutboxRow → Bool) (f : OutboxRow → OutboxRow) (xs : List OutboxRow)
    → SameKeys f
    → find (has_key w k) (update p f xs) ≡ change p f (find (has_key w k) xs)
unfolding find update
find-update w k p f [] s = refl
find-update w k p f (x ∷ xs) s =
    ground (arith, s.work_item_id x, s.action_key x, find-update w k p f xs s)
