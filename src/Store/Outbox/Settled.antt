-- ===== src/Store/Outbox/Settled.antt =====
-- An action whose row is committed with a response, seen by its (work item, action key) pair.
use botfam.Base.{
  ℕ, ◌≡◌, ◌≢◌, refl, Bool, true, false, ◌&&◌, List, [], ◌∷◌, ◌++◌, Option, none, some, String, ◌==◌,
  eq_iff, arith, any, find, update, ok, inl, inr, not, if◌then◌else◌, any-append, ◌∙◌, not,
  Bool-cases,
}
use botfam.Store.{Tables, Db, OutboxRow, ActionState, in_progress}
use botfam.Store.Outbox.{
  has_id, has_key, claimable, reclaimable, set_state, set_committed, is_pending, is_in_progress,
  is_committed, OutboxResult, enqueue_forge_action,
}
use botfam.Store.Outbox.Enqueue.{enqueue_found, enqueue_found-tables}
use botfam.Store.Outbox.Calls.{Call, records, Preserves}
use botfam.Store.Outbox.Claim.{IsTaken, other_id}
use botfam.Store.Outbox.Unique.{any-has_id-update, set_state-SameKeys, set_committed-SameKeys}

-- The id and the response of the row of this pair, if its state is committed.
unfoldable pub settled : String → String → List OutboxRow → Option (String × String)
settled w k [] = none
settled w k (r ∷ rs) =
    if has_key w k r
    then (if is_committed r.state then some (r.id, r.response_json) else none)
    else settled w k rs

-- No attempt of this action is recorded by the call.
abbrev pub Spares : String → Call → Type 0
Spares id (records other _ _ _) = other ≢ id
Spares id _ = Unit {0}

abbrev pub open_row : String → OutboxRow → Bool
open_row id r = r.id == id && not (is_committed r.state)

-- The action is in the outbox, and every row of it is committed.
pub record IsDone (id : String) (xs : List OutboxRow) : Type 0 where
  pub present : any (has_id id) xs ≡ true
  pub closed : any (open_row id) xs ≡ false

closed-append :
    (id : String) (r : OutboxRow) (xs : List OutboxRow)
    → any (open_row id) xs ≡ false
    → (r.id == id) ≡ false
    → any (open_row id) (xs ++ r ∷ []) ≡ false
unfolding any
closed-append id r [] h e = ground arith
closed-append id r (x ∷ xs) h e = ground (arith, closed-append id r xs)

closed-update :
    (id : String) (p : OutboxRow → Bool) (f : OutboxRow → OutboxRow) (xs : List OutboxRow)
    → ((r : OutboxRow) → p r ≡ true → open_row id r ≡ false → open_row id (f r) ≡ false)
    → any (open_row id) xs ≡ false
    → any (open_row id) (update p f xs) ≡ false
unfolding any update
closed-update id p f [] k h = h
closed-update id p f (x ∷ xs) k h = ground (arith, k x, closed-update id p f xs k)

closed_unclaimable :
    (id : String) (xs : List OutboxRow)
    → any (open_row id) xs ≡ false
    → any (claimable id) xs ≡ false
unfolding any is_committed is_pending
closed_unclaimable id [] h = refl
closed_unclaimable id (x ∷ xs) h = ground (arith, closed_unclaimable id xs)

pub IsDone-IsTaken : (id : String) (xs : List OutboxRow) → IsDone id xs → IsTaken id xs
IsDone-IsTaken id xs h = record {
  present = h.present;
  unclaimable = closed_unclaimable id xs h.closed;
}

IsDone-Preserves : (id : String) → Preserves (Spares id) (λ t. IsDone id t.outbox)
unfolding is_pending is_in_progress is_committed
IsDone-Preserves id = record {
  inserted = λ r t s i k h. record {
    present = rw any-append (rw h.present refl);
    closed = closed-append id r t.outbox h.closed (other_id id r t.outbox h.present i);
  };
  attempted = λ a t h. h;
  claimed = λ other t h. record {
    present = any-has_id-update _ _ (set_state-SameKeys in_progress) id t.outbox ∙ h.present;
    closed =
        closed-update id (claimable other) (set_state in_progress) t.outbox (λ r p k. ground arith)
          h.closed;
  };
  released = λ t a h. record {
    present =
        any-has_id-update _ _ (set_state-SameKeys ActionState.pending) id t.outbox ∙ h.present;
    closed =
        closed-update id (λ r. is_in_progress r.state) (set_state ActionState.pending) t.outbox
          (λ r p k. ground arith) h.closed;
  };
  returned = λ other token result response t a h. record {
    present =
        any-has_id-update _ _ (set_state-SameKeys ActionState.pending) id t.outbox ∙ h.present;
    closed =
        closed-update id (reclaimable other) (set_state ActionState.pending) t.outbox
          (λ r p k. ground arith) h.closed;
  };
  committed = λ other token result response stored now t a h. record {
    present = any-has_id-update _ _ (set_committed-SameKeys stored now) id t.outbox ∙ h.present;
    closed =
        closed-update id (has_id other) (set_committed stored now) t.outbox (λ r p k. ground arith)
          h.closed;
  };
}

module _ (w k id response : String) where
  abbrev Holds : List OutboxRow → Type 0
  Holds xs = settled w k xs ≡ some (id, response)

  settled-append : (xs ys : List OutboxRow) → Holds xs → Holds (xs ++ ys)
  unfolding settled
  settled-append [] ys h = cc
  settled-append (x ∷ xs) ys h = ground (arith, settled-append xs ys)

  record KeepsRow (p : OutboxRow → Bool) (f : OutboxRow → OutboxRow) : Type 0 where
    same_key : (r : OutboxRow) → has_key w k (f r) ≡ has_key w k r
    untouched : (r : OutboxRow) → is_committed r.state ≡ true → r.id ≡ id → p r ≡ false

  settled-update :
      (p : OutboxRow → Bool) (f : OutboxRow → OutboxRow) (xs : List OutboxRow)
      → KeepsRow p f
      → Holds xs
      → Holds (update p f xs)
  unfolding settled update
  settled-update p f [] s h = h
  settled-update p f (x ∷ xs) s h =
      ground (arith, s.same_key x, s.untouched x, settled-update p f xs s)

  settled-Preserves : Preserves (Spares id) (λ t. Holds t.outbox)
  unfolding is_committed is_pending is_in_progress
  settled-Preserves = record {
    inserted = λ r t s i key h. settled-append t.outbox (r ∷ []) h;
    attempted = λ a t h. h;
    claimed = λ other t h.
        settled-update (claimable other) (set_state in_progress) t.outbox
          (record { same_key = λ r. refl; untouched = λ r c e. ground arith }) h;
    released = λ t a h.
        settled-update (λ r. is_in_progress r.state) (set_state ActionState.pending) t.outbox
          (record { same_key = λ r. refl; untouched = λ r c e. ground arith }) h;
    returned = λ other token result stored t a h.
        settled-update (reclaimable other) (set_state ActionState.pending) t.outbox
          (record { same_key = λ r. refl; untouched = λ r c e. ground arith }) h;
    committed = λ other token result stored kept now t a h.
        settled-update (has_id other) (set_committed kept now) t.outbox
          (record { same_key = λ r. refl; untouched = λ r c e. ground (arith, eq_iff r.id other) })
          h;
  }

  -- The action is settled, and its row can be claimed no more.
  pub record IsSettled (t : Tables) : Type 0 where
    pub row : settled w k t.outbox ≡ some (id, response)
    pub done : IsDone id t.outbox

  pub IsSettled-Preserves : Preserves (Spares id) IsSettled
  IsSettled-Preserves = record {
    inserted = λ r t s i key h. record {
      row = settled-Preserves.inserted r t s i key h.row;
      done = (IsDone-Preserves id).inserted r t s i key h.done;
    };
    attempted = λ a t h. record { row = h.row; done = h.done };
    claimed = λ other t h. record {
      row = settled-Preserves.claimed other t h.row;
      done = (IsDone-Preserves id).claimed other t h.done;
    };
    released = λ t a h. record {
      row = settled-Preserves.released t a h.row;
      done = (IsDone-Preserves id).released t a h.done;
    };
    returned = λ other token result stored t a h. record {
      row = settled-Preserves.returned other token result stored t a h.row;
      done = (IsDone-Preserves id).returned other token result stored t a h.done;
    };
    committed = λ other token result stored kept now t a h. record {
      row = settled-Preserves.committed other token result stored kept now t a h.row;
      done = (IsDone-Preserves id).committed other token result stored kept now t a h.done;
    };
  }

  settled-find :
      (xs : List OutboxRow)
      → Holds xs
      → (r : OutboxRow) × (find (has_key w k) xs ≡ some r)
        × (is_committed r.state ≡ true)
        × (r.id ≡ id)
        × (r.response_json ≡ response)
  unfolding settled find
  settled-find [] h = cc
  settled-find (x ∷ xs) h = elim (Bool-cases (has_key w k x)) [
    | inl e ↦ rw e (x, refl, ground arith, ground arith, ground arith)
    | inr e ↦ rw e (settled-find xs (ground arith))
  ]

  abbrev pub settled_result : OutboxResult
  settled_result = record { id = id; deduped = true; committed = true; response_json = response }

  -- Enqueuing it again changes no table, and what it answers is the stored row.
  pub enqueue_settled-tables :
      (new tool args : String) (token : ℕ) (db : Db)
      → IsSettled db.tables
      → (enqueue_forge_action new w k tool args token db).1.tables ≡ db.tables
  enqueue_settled-tables new tool args token db s =
      let (r, found, done, same_id, same_response) = settled-find db.tables.outbox s.row in
      enqueue_found-tables w k r new tool args token db found

  pub enqueue_settled :
      (new tool args : String) (token : ℕ) (db : Db) (res : OutboxResult)
      → IsSettled db.tables
      → (enqueue_forge_action new w k tool args token db).0 ≡ ok res
      → res ≡ settled_result
  enqueue_settled new tool args token db res s h =
      let (r, found, done, same_id, same_response) = settled-find db.tables.outbox s.row in
      ground (
        arith,
        enqueue_found w k r new tool args token db res found h,
        done,
        same_id,
        same_response,
      )
