-- ===== src/Store/Outbox/Claim.antt =====
-- At most one caller holds the claim of an action.
use botfam.Base.{
  ◌≡◌, ◌≢◌, refl, Bool, true, false, List, [], ◌∷◌, ◌++◌, All, String, ◌==◌, eq_iff, arith, ok, any,
  filter, update, length, any-append, Bool-cases, inl, inr, false≢true, sym, ap, ◌∙◌,
}
use botfam.Sql.{statement}
use botfam.Store.{Db, OutboxRow, ActionState, in_progress}
use botfam.Store.Outbox.{has_id, claimable, set_state, is_pending, claim_forge_action}
use botfam.Store.Outbox.Unique.{any-has_id-update, set_state-SameKeys, set_committed-SameKeys}
use botfam.Store.Outbox.Calls.{Call, enqueues, claims, releases, records, run, Preserves, run_keeps}

-- The call neither releases all claims nor records an attempt of this action.
abbrev pub Leaves : String → Call → Type 0
Leaves id (enqueues _ _ _ _ _ _) = Unit {0}
Leaves id (claims _) = Unit {0}
Leaves id releases = ⊥
Leaves id (records other _ _ _) = other ≢ id

-- The action is in the outbox, and no row of it can be claimed.
pub record IsTaken (id : String) (xs : List OutboxRow) : Type 0 where
  pub present : any (has_id id) xs ≡ true
  pub unclaimable : any (claimable id) xs ≡ false

claim_takes :
    (id : String) (xs : List OutboxRow)
    → any (claimable id) (update (claimable id) (set_state in_progress) xs) ≡ false
unfolding any update is_pending
claim_takes id [] = refl
claim_takes id (x ∷ xs) = ground (arith, claim_takes id xs)

-- A row that could be claimed was found.
filter_present :
    (id : String) (xs : List OutboxRow)
    → length (filter (claimable id) xs) ≡ 1
    → any (has_id id) xs ≡ true
unfolding any filter
filter_present id [] h = absurd (omega arith)
filter_present id (x ∷ xs) h = ground (arith, filter_present id xs)

pub filter_none :
    (id : String) (xs : List OutboxRow)
    → any (claimable id) xs ≡ false
    → length (filter (claimable id) xs) ≡ 0
unfolding any filter
filter_none id [] h = refl
filter_none id (x ∷ xs) h = ground (arith, filter_none id xs)

unclaimable-append :
    (id : String) (r : OutboxRow) (xs : List OutboxRow)
    → any (claimable id) xs ≡ false
    → (r.id == id) ≡ false
    → any (claimable id) (xs ++ r ∷ []) ≡ false
unfolding any
unclaimable-append id r [] h e = ground arith
unclaimable-append id r (x ∷ xs) h e = ground (arith, unclaimable-append id r xs)

-- A change that makes no row of this action claimable.
unclaimable-update :
    (id : String) (p : OutboxRow → Bool) (f : OutboxRow → OutboxRow) (xs : List OutboxRow)
    → ((r : OutboxRow) → p r ≡ true → claimable id r ≡ false → claimable id (f r) ≡ false)
    → any (claimable id) xs ≡ false
    → any (claimable id) (update p f xs) ≡ false
unfolding any update
unclaimable-update id p f [] k h = h
unclaimable-update id p f (x ∷ xs) k h = ground (arith, k x, unclaimable-update id p f xs k)

-- a row with this id is already there, so no other is inserted under it
pub other_id :
    (id : String) (r : OutboxRow) (xs : List OutboxRow)
    → any (has_id id) xs ≡ true
    → any (has_id r.id) xs ≡ false
    → (r.id == id) ≡ false
other_id id r xs h k = elim (Bool-cases (r.id == id)) [
  | inl e ↦ absurd (false≢true (sym k ∙ ap (λ i. any (has_id i) xs) ((eq_iff r.id id).0 e) ∙ h))
  | inr e ↦ e
]

pub IsTaken-Preserves : (id : String) → Preserves (Leaves id) (λ t. IsTaken id t.outbox)
unfolding is_pending
IsTaken-Preserves id = record {
  inserted = λ r t s i k h. record {
    present = rw any-append (rw h.present refl);
    unclaimable =
        unclaimable-append id r t.outbox h.unclaimable (other_id id r t.outbox h.present i);
  };
  attempted = λ a t h. h;
  claimed = λ other t h. record {
    present = any-has_id-update _ _ (set_state-SameKeys in_progress) id t.outbox ∙ h.present;
    unclaimable = unclaimable-update id _ _ t.outbox (λ r p k. ground arith) h.unclaimable;
  };
  released = λ t a h. absurd a;
  returned = λ other token result response t a h. record {
    present =
        any-has_id-update _ _ (set_state-SameKeys ActionState.pending) id t.outbox ∙ h.present;
    unclaimable =
        unclaimable-update id _ _ t.outbox
          (λ r p k. ground (arith, eq_iff r.id other, eq_iff r.id id)) h.unclaimable;
  };
  committed = λ other token result response stored now t a h. record {
    present = any-has_id-update _ _ (set_committed-SameKeys stored now) id t.outbox ∙ h.present;
    unclaimable = unclaimable-update id _ _ t.outbox (λ r p k. ground arith) h.unclaimable;
  };
}

claim-IsTaken :
    (id : String) (db : Db)
    → (claim_forge_action id db).0 ≡ ok true
    → IsTaken id (claim_forge_action id db).1.tables.outbox
unfolding claim_forge_action statement
claim-IsTaken id db h = record {
  present = ground (
    arith,
    filter_present id db.tables.outbox,
    any-has_id-update (claimable id) (set_state in_progress) (set_state-SameKeys in_progress) id
        db.tables.outbox,
  );
  unclaimable = ground (arith, claim_takes id db.tables.outbox);
}

pub not_taken_twice :
    (id : String) (db : Db) → IsTaken id db.tables.outbox → (claim_forge_action id db).0 ≢ ok true
unfolding claim_forge_action statement
not_taken_twice id db h e = ground (arith, filter_none id db.tables.outbox h.unclaimable)

-- Once a claim of an action has succeeded, no further claim of it succeeds until an attempt of it is
-- recorded or all claims are released, whatever other calls come between and whatever errors the
-- engine reports.
pub claim_exclusive :
    (id : String) (cs : List Call) (db : Db)
    → All (Leaves id) cs
    → (claim_forge_action id db).0 ≡ ok true
    → (claim_forge_action id (run cs (claim_forge_action id db).1)).0 ≢ ok true
claim_exclusive id cs db a h =
    not_taken_twice id _
      (run_keeps (IsTaken-Preserves id) cs (claim_forge_action id db).1 a (claim-IsTaken id db h))
