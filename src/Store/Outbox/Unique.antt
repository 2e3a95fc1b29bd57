-- ===== src/Store/Outbox/Unique.antt =====
-- The ids of the outbox are distinct, and so are its (work item, action key) pairs.
use botfam.Base.{
  ℕ, ◌≡◌, refl, Bool, false, List, [], ◌∷◌, ◌++◌, String, ◌==◌, eq_iff, arith, any, update,
}
use botfam.Store.{Db, OutboxRow, ActionState, in_progress}
use botfam.Store.Outbox.{has_id, has_key, set_state, set_committed}
use botfam.Store.Outbox.Calls.{Call, run, Preserves, Anything, All-Anything, run_keeps}

abbrev pub IsUnique : List OutboxRow → Type 0
IsUnique [] = Unit {0}
IsUnique (r ∷ rs) =
    (any (has_id r.id) rs ≡ false)
    × (any (has_key r.work_item_id r.action_key) rs ≡ false)
    × IsUnique rs

any-has_id_append :
    (id : String) (r : OutboxRow) (xs : List OutboxRow)
    → any (has_id id) xs ≡ false
    → (r.id == id) ≡ false
    → any (has_id id) (xs ++ r ∷ []) ≡ false
unfolding any
any-has_id_append id r [] h e = ground arith
any-has_id_append id r (x ∷ xs) h e = ground (arith, any-has_id_append id r xs)

any-has_key_append :
    (w k : String) (r : OutboxRow) (xs : List OutboxRow)
    → any (has_key w k) xs ≡ false
    → has_key w k r ≡ false
    → any (has_key w k) (xs ++ r ∷ []) ≡ false
unfolding any
any-has_key_append w k r [] h e = ground arith
any-has_key_append w k r (x ∷ xs) h e = ground (arith, any-has_key_append w k r xs)

IsUnique-append :
    (r : OutboxRow) (xs : List OutboxRow)
    → any (has_id r.id) xs ≡ false
    → any (has_key r.work_item_id r.action_key) xs ≡ false
    → IsUnique xs
    → IsUnique (xs ++ r ∷ [])
unfolding any
IsUnique-append r [] hi hk u = (refl, refl, tt)
IsUnique-append r (x ∷ xs) hi hk u = ground (
  arith,
  IsUnique-append r xs,
  any-has_id_append x.id r xs,
  any-has_key_append x.work_item_id x.action_key r xs,
  eq_iff x.id r.id,
  eq_iff r.id x.id,
  eq_iff x.work_item_id r.work_item_id,
  eq_iff r.work_item_id x.work_item_id,
  eq_iff x.action_key r.action_key,
  eq_iff r.action_key x.action_key,
)

-- What a change of a row leaves alone.
pub record SameKeys (f : OutboxRow → OutboxRow) : Type 0 where
  pub id : (r : OutboxRow) → (f r).id ≡ r.id
  pub work_item_id : (r : OutboxRow) → (f r).work_item_id ≡ r.work_item_id
  pub action_key : (r : OutboxRow) → (f r).action_key ≡ r.action_key

pub set_state-SameKeys : (s : ActionState) → SameKeys (set_state s)
set_state-SameKeys s = record { id = λ r. refl; work_item_id = λ r. refl; action_key = λ r. refl }

pub set_committed-SameKeys : (response : String) (now : ℕ) → SameKeys (set_committed response now)
set_committed-SameKeys response now = record {
  id = λ r. refl;
  work_item_id = λ r. refl;
  action_key = λ r. refl;
}

module _ (p : OutboxRow → Bool) (f : OutboxRow → OutboxRow) (s : SameKeys f) where
  pub any-has_id-update :
      (id : String) (xs : List OutboxRow) → any (has_id id) (update p f xs) ≡ any (has_id id) xs
  unfolding any update
  any-has_id-update id [] = refl
  any-has_id-update id (x ∷ xs) = ground (arith, s.id x, any-has_id-update id xs)

  any-has_key-update :
      (w k : String) (xs : List OutboxRow)
      → any (has_key w k) (update p f xs) ≡ any (has_key w k) xs
  unfolding any update
  any-has_key-update w k [] = refl
  any-has_key-update w k (x ∷ xs) =
      ground (arith, s.work_item_id x, s.action_key x, any-has_key-update w k xs)

  IsUnique-update : (xs : List OutboxRow) → IsUnique xs → IsUnique (update p f xs)
  unfolding update
  IsUnique-update [] u = tt
  IsUnique-update (x ∷ xs) u = ground (
    arith,
    IsUnique-update xs,
    s.id x,
    s.work_item_id x,
    s.action_key x,
    any-has_id-update x.id xs,
    any-has_key-update x.work_item_id x.action_key xs,
  )

pub IsUnique-Preserves : Preserves Anything (λ t. IsUnique t.outbox)
IsUnique-Preserves = record {
  inserted = λ r t s i k u. IsUnique-append r t.outbox i k u;
  attempted = λ a t u. u;
  claimed = λ id t u. IsUnique-update _ _ (set_state-SameKeys in_progress) t.outbox u;
  released = λ t a u. IsUnique-update _ _ (set_state-SameKeys ActionState.pending) t.outbox u;
  returned = λ id token result response t a u.
      IsUnique-update _ _ (set_state-SameKeys ActionState.pending) t.outbox u;
  committed = λ id token result response stored now t a u.
      IsUnique-update _ _ (set_committed-SameKeys stored now) t.outbox u;
}

-- Whatever calls follow, and whatever errors the engine reports, distinct ids and distinct
-- (work item, action key) pairs stay distinct.
pub run-IsUnique :
    (cs : List Call) (db : Db) → IsUnique db.tables.outbox → IsUnique (run cs db).tables.outbox
run-IsUnique cs db = run_keeps IsUnique-Preserves cs db (All-Anything cs)
