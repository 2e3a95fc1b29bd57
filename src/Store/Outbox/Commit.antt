-- ===== src/Store/Outbox/Commit.antt =====
-- A committed action stays committed.
use botfam.Base.{
  ℕ, ◌≡◌, refl, Bool, true, false, List, [], ◌∷◌, ◌++◌, Option, none, some, String, ◌==◌, arith, ap,
  ◌⊎◌, inl, inr, ◌&&◌, update, if◌then◌else◌,
}
use botfam.Store.{Db, OutboxRow, ActionState, in_progress, committed}
use botfam.Store.Outbox.{has_id, set_committed, coalesce, is_pending, is_in_progress, is_committed}
use botfam.Store.Outbox.Calls.{Call, run, Preserves, Anything, All-Anything, run_keeps}

-- When the action was committed: `committed_at` of the row with this id, if its state is committed.
unfoldable pub commit_time : String → List OutboxRow → Option ℕ
commit_time id [] = none
commit_time id (r ∷ rs) =
    if r.id == id
    then (if is_committed r.state then r.committed_at else none)
    else commit_time id rs

commit_time-append :
    (id : String) (time : ℕ) (xs ys : List OutboxRow)
    → commit_time id xs ≡ some time
    → commit_time id (xs ++ ys) ≡ some time
unfolding commit_time
commit_time-append id time [] ys h = cc
commit_time-append id time (x ∷ xs) ys h = ground (arith, commit_time-append id time xs ys)

-- The change leaves a committed row committed, at the time that it has.
record KeepsTime (p : OutboxRow → Bool) (f : OutboxRow → OutboxRow) : Type 0 where
  same_id : (r : OutboxRow) → (f r).id ≡ r.id
  same_time :
      (r : OutboxRow) (time : ℕ)
      → p r ≡ true
      → is_committed r.state ≡ true
      → r.committed_at ≡ some time
      → (is_committed (f r).state ≡ true) × ((f r).committed_at ≡ some time)

commit_time-update :
    (id : String) (time : ℕ) (p : OutboxRow → Bool) (f : OutboxRow → OutboxRow)
    (xs : List OutboxRow)
    → KeepsTime p f
    → commit_time id xs ≡ some time
    → commit_time id (update p f xs) ≡ some time
unfolding commit_time update
commit_time-update id time p f [] k h = h
commit_time-update id time p f (x ∷ xs) k h =
    ground (arith, k.same_id x, k.same_time x time, commit_time-update id time p f xs k)

-- A row that is pending or in progress is not committed.
pub not_committed :
    (b : Bool) (s : ActionState)
    → (b && is_pending s) ≡ true ⊎ is_in_progress s ≡ true
    → is_committed s ≡ true
    → ⊥
unfolding is_pending is_in_progress is_committed
not_committed b ActionState.pending h e = cc
not_committed true in_progress (inl h) e = cc
not_committed false in_progress (inl h) e = cc
not_committed b in_progress (inr h) e = cc
not_committed true committed (inl h) e = cc
not_committed false committed (inl h) e = cc
not_committed b committed (inr h) e = cc

set_committed_keeps :
    (id response : String) (now : ℕ) → KeepsTime (has_id id) (set_committed response now)
unfolding is_committed
set_committed_keeps id response now = record {
  same_id = λ r. refl;
  same_time = λ r time p c e. (refl, ap (λ o. coalesce o now) e);
}

commit_time-Preserves :
    (id : String) (time : ℕ) → Preserves Anything (λ t. commit_time id t.outbox ≡ some time)
commit_time-Preserves id time = record {
  inserted = λ r t s i k h. commit_time-append id time t.outbox (r ∷ []) h;
  attempted = λ a t h. h;
  claimed = λ other t h.
      commit_time-update id time _ _ t.outbox
        (record {
          same_id = λ r. refl;
          same_time = λ r _ p c _. absurd (not_committed (r.id == other) r.state (inl p) c);
        })
        h;
  released = λ t a h.
      commit_time-update id time _ _ t.outbox
        (record {
          same_id = λ r. refl;
          same_time = λ r _ p c _. absurd (not_committed true r.state (inr p) c);
        })
        h;
  returned = λ other token result response t a h.
      commit_time-update id time _ _ t.outbox
        (record {
          same_id = λ r. refl;
          same_time = λ r _ p c _. absurd (not_committed true r.state (inr (ground arith)) c);
        })
        h;
  committed = λ other token result response stored now t a h.
      commit_time-update id time _ _ t.outbox (set_committed_keeps other stored now) h;
}

-- Whatever calls follow, and whatever errors the engine reports, an action that is committed stays
-- committed, and keeps the time at which it was committed first.
pub committed_forever :
    (cs : List Call) (db : Db) (id : String) (time : ℕ)
    → commit_time id db.tables.outbox ≡ some time
    → commit_time id (run cs db).tables.outbox ≡ some time
committed_forever cs db id time = run_keeps (commit_time-Preserves id time) cs db (All-Anything cs)
