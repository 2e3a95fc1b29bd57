-- ===== src/Store/Pending.antt =====
-- PendingWorkItems of internal/eventdelivery/store/store.go: ORDER BY created_at, id LIMIT.
pub mod Order
use Prim.Native.Nat.{Ordering, suc, zero}
use Prim.Native.String.{compare}
use botfam.Base.{
  ℕ, ◌≤◌, ◌≡◌, Bool, true, false, ◌&&◌, ◌||◌, List, [], ◌∷◌, map, length, All, arith, ltb, leb,
  nat_eq, String, filter, Result, ok, Exec, pure, ◌>>=◌, if◌then◌else◌, Bool-cases, inl, inr,
}
use botfam.Sql.{Env, statement}
use botfam.Store.{Tables, Db, WorkItemRow, WorkState}

pub record WorkItem : Type 0 where
  pub id : String
  pub kind : String
  pub source_id : String
  pub title : String
  pub body : String
  pub scope_generation : ℕ

abbrev pub item_of : WorkItemRow → WorkItem
item_of r = record {
  id = r.id;
  kind = r.kind;
  source_id = r.source_id;
  title = r.title;
  body = r.body;
  scope_generation = r.scope_generation;
}

abbrev at_most : Ordering → Bool
at_most Ordering.gt = false
at_most _ = true

-- ORDER BY created_at, id: does the first row stand before the second?
abbrev pub stands_before : WorkItemRow → WorkItemRow → Bool
stands_before r s =
    ltb r.created_at s.created_at
    || (nat_eq r.created_at s.created_at && at_most (compare r.id s.id))

unfoldable pub insert_row : WorkItemRow → List WorkItemRow → List WorkItemRow
insert_row r [] = r ∷ []
insert_row r (s ∷ rows) =
    let rest = insert_row r rows in if stands_before r s then r ∷ s ∷ rows else s ∷ rest

unfoldable pub order_rows : List WorkItemRow → List WorkItemRow
order_rows [] = []
order_rows (r ∷ rows) = insert_row r (order_rows rows)

unfoldable pub take : {A : Type 0} → ℕ → List A → List A
take n [] = []
take zero (x ∷ xs) = []
take (suc n) (x ∷ xs) = x ∷ take n xs

abbrev pub limit_of : ℕ → ℕ
limit_of limit = if leb limit 0 then 100 else limit

abbrev pending_state : WorkState → Bool
pending_state WorkState.pending = true
pending_state _ = false

-- WHERE state = 'pending'
abbrev pub is_pending : WorkItemRow → Bool
is_pending r = pending_state r.state

-- SELECT FROM work_items WHERE state = 'pending' ORDER BY created_at, id LIMIT ?
abbrev pub select_pending : ℕ → Env → Tables → Result (List WorkItemRow × Tables)
select_pending limit env t =
    ok (take (limit_of limit) (order_rows (filter is_pending t.work_items)), t)

-- PendingWorkItems; a limit that is not positive is 0.
unfoldable pub pending_work_items : ℕ → Exec Db (List WorkItem)
pending_work_items limit = do rows ← statement (select_pending limit); pure (map item_of rows)
