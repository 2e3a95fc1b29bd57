-- ===== src/Store/Outbox/Calls.antt =====
-- Any sequence of calls on the outbox, under any schedule of engine errors, and the rule by which
-- a property of the tables is carried through it: one field for each SQL statement.
use botfam.Base.{
  ℕ, ◌≡◌, refl, Bool, false, List, [], ◌∷◌, ◌++◌, All, String, ◌==◌, arith, raise, any, update,
}
use botfam.Base.Text.{is_blank}
use botfam.Sql.{statement, transaction}
use botfam.Sql.Laws.{
  Keeps, Keeps-statement, Keeps-transaction, Keeps-bind, Keeps-if, Keeps-pure, Keeps-raise,
}
use botfam.Store.{Tables, Db, OutboxRow, AttemptRow, ActionState, in_progress}
use botfam.Store.Outbox.{
  enqueue_forge_action, claim_forge_action, release_orphaned_forge_action_claims,
  record_forge_action_attempt, attempt_body, insert_row, update_outbox, set_state, set_committed,
  new_attempt, claimable, reclaimable, has_id, has_key, select_row, is_in_progress,
}

pub data Call : Type 0 where
  enqueues : String → String → String → String → String → ℕ → Call
  claims : String → Call
  releases : Call
  records : String → ℕ → String → String → Call

unfoldable pub step : Call → Db → Db
step (enqueues id w k tool args token) db = (enqueue_forge_action id w k tool args token db).1
step (claims id) db = (claim_forge_action id db).1
step releases db = (release_orphaned_forge_action_claims db).1
step (records id token result response) db =
    (record_forge_action_attempt id token result response db).1

unfoldable pub run : List Call → Db → Db
run [] db = db
run (c ∷ cs) db = run cs (step c db)

-- Each statement keeps `P`, in the calls that are allowed.
pub record Preserves (Allowed : Call → Type 0) (P : Tables → Type 0) : Type 0 where
  pub inserted :
      (r : OutboxRow) (t : Tables)
      → r.state ≡ ActionState.pending
      → any (has_id r.id) t.outbox ≡ false
      → any (has_key r.work_item_id r.action_key) t.outbox ≡ false
      → P t
      → P (record t { outbox = t.outbox ++ r ∷ [] })
  pub attempted :
      (a : AttemptRow) (t : Tables) → P t → P (record t { attempts = t.attempts ++ a ∷ [] })
  pub claimed :
      (id : String) (t : Tables)
      → P t
      → P (record t { outbox = update (claimable id) (set_state in_progress) t.outbox })
  pub released :
      (t : Tables)
      → Allowed releases
      → P t
      → P (record t {
        outbox = update (λ r. is_in_progress r.state) (set_state ActionState.pending) t.outbox;
      })
  pub returned :
      (id : String) (token : ℕ) (result response : String) (t : Tables)
      → Allowed (records id token result response)
      → P t
      → P (record t { outbox = update (reclaimable id) (set_state ActionState.pending) t.outbox })
  pub committed :
      (id : String) (token : ℕ) (result response stored : String) (now : ℕ) (t : Tables)
      → Allowed (records id token result response)
      → P t
      → P (record t { outbox = update (has_id id) (set_committed stored now) t.outbox })

module _ {Allowed : Call → Type 0} {P : Tables → Type 0} (h : Preserves Allowed P) where
  insert-Keeps :
      (r : ℕ → OutboxRow)
      → ((now : ℕ) → (r now).state ≡ ActionState.pending)
      → Keeps P (statement (λ env. insert_row (r env.now) env))
  insert-Keeps r s =
      Keeps-statement _ λ env t n t' p e. ground (arith, h.inserted (r env.now) t (s env.now))

  select-Keeps : (w k : String) → Keeps P (statement (select_row w k))
  select-Keeps w k = Keeps-statement _ λ env t r t' p e. ground arith

  pub enqueue-Keeps :
      (id w k tool args : String) (token : ℕ)
      → Keeps P (enqueue_forge_action id w k tool args token)
  unfolding enqueue_forge_action
  enqueue-Keeps id w k tool args token = Keeps-if _ _ _ (Keeps-raise _) (
      Keeps-bind _ _ (insert-Keeps _ (λ now. refl))
        λ n. Keeps-if _ _ _ (Keeps-pure _) (Keeps-bind _ _ (select-Keeps w k) (λ r. Keeps-pure _)))

  update-Keeps :
      (p : OutboxRow → Bool) (f : ℕ → OutboxRow → OutboxRow)
      → ((now : ℕ) (t : Tables) → P t → P (record t { outbox = update p (f now) t.outbox }))
      → Keeps P (statement (λ env. update_outbox p (f env.now) env))
  update-Keeps p f k = Keeps-statement _ λ env t n t' q e. ground (arith, k env.now t q)

  pub claim-Keeps : (id : String) → Keeps P (claim_forge_action id)
  unfolding claim_forge_action
  claim-Keeps id = Keeps-if (is_blank id) (raise _) _ (Keeps-raise _) (
      Keeps-bind _ _
        (update-Keeps (claimable id) (λ now. set_state in_progress) (λ now. h.claimed id))
        λ n. Keeps-pure _)

  pub release-Keeps : Allowed releases → Keeps P release_orphaned_forge_action_claims
  unfolding release_orphaned_forge_action_claims
  release-Keeps a = update-Keeps _ (λ now. set_state ActionState.pending) (λ now t. h.released t a)

  attempt-Keeps :
      (id : String) (token : ℕ) (result response stored : String)
      → Allowed (records id token result response)
      → Keeps P (attempt_body id token result stored)
  unfolding attempt_body
  attempt-Keeps id token result response stored a =
      Keeps-bind _ _
        (Keeps-statement _ λ env t u t' p e.
          ground (arith, h.attempted (new_attempt id token result stored env.now) t))
        λ u.
          Keeps-if (result == "committed") _ _
            (Keeps-bind _ _
              (update-Keeps (has_id id) (set_committed stored)
                λ now t. h.committed id token result response stored now t a)
              λ n. Keeps-pure _)
            (Keeps-bind _ _
              (update-Keeps (reclaimable id) (λ now. set_state ActionState.pending)
                λ now t. h.returned id token result response t a)
              λ n. Keeps-pure _)

  pub record-Keeps :
      (id : String) (token : ℕ) (result response : String)
      → Allowed (records id token result response)
      → Keeps P (record_forge_action_attempt id token result response)
  unfolding record_forge_action_attempt
  record-Keeps id token result response a = Keeps-if (is_blank id) (raise _) _ (Keeps-raise _) (
      Keeps-if (is_blank result) (raise _) (transaction _) (Keeps-raise _)
        (Keeps-transaction _ (attempt-Keeps id token result response _ a)))

  pub step_keeps : (c : Call) (db : Db) → Allowed c → P db.tables → P (step c db).tables
  unfolding step
  step_keeps (enqueues id w k tool args token) db a p =
      (enqueue-Keeps id w k tool args token).at db p
  step_keeps (claims id) db a p = (claim-Keeps id).at db p
  step_keeps releases db a p = (release-Keeps a).at db p
  step_keeps (records id token result response) db a p =
      (record-Keeps id token result response a).at db p

  pub run_keeps : (cs : List Call) (db : Db) → All Allowed cs → P db.tables → P (run cs db).tables
  unfolding run
  run_keeps [] db a p = p
  run_keeps (c ∷ cs) db a p = run_keeps cs (step c db) a.1 (step_keeps c db a.0 p)

-- Every call is allowed.
abbrev pub Anything : Call → Type 0
Anything c = Unit {0}

pub All-Anything : (cs : List Call) → All Anything cs
All-Anything [] = tt
All-Anything (c ∷ cs) = (tt, All-Anything cs)
