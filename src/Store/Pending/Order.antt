-- ===== src/Store/Pending/Order.antt =====
-- The order and the choice of the rows that PendingWorkItems of internal/eventdelivery/store/store.go
-- reads.
use mathlib.Core.List.Perm
use botfam.Base.{Perm}
use botfam.Base.Permuted.{insert-perm}
use botfam.Base.{
  ℕ, zero, suc, ◌≤◌, ◌≡◌, inl, inr, List, [], ◌∷◌, map, arith, Bool-cases, ok, length, filter, All,
}
use botfam.Sql.{statement}
use botfam.Store.{Db, WorkItemRow}
use botfam.Store.Pending.{
  WorkItem, item_of, stands_before, insert_row, order_rows, take, limit_of, is_pending,
  pending_work_items,
}

-- Each row is no younger than those after it.
pub IsOldestFirst : List WorkItemRow → Type 0
IsOldestFirst [] = Unit
IsOldestFirst (r ∷ rows) =
    All (λ (s : WorkItemRow). r.created_at ≤ s.created_at) rows × IsOldestFirst rows

abbrev NoOlder : ℕ → List WorkItemRow → Type 0
NoOlder n rows = All (λ (s : WorkItemRow). n ≤ s.created_at) rows

insert-NoOlder :
    (n : ℕ) (r : WorkItemRow) (rows : List WorkItemRow)
    → n ≤ r.created_at
    → NoOlder n rows
    → NoOlder n (insert_row r rows)
unfolding insert_row
insert-NoOlder n r [] h k = (h, tt)
insert-NoOlder n r (s ∷ rows) h k = elim (Bool-cases (stands_before r s)) [
  | inl e ↦ rw e (h, k)
  | inr e ↦ rw e (k.0, insert-NoOlder n r rows h k.1)
]

weaken-NoOlder : (m n : ℕ) (rows : List WorkItemRow) → m ≤ n → NoOlder n rows → NoOlder m rows
weaken-NoOlder m n [] l h = tt
weaken-NoOlder m n (s ∷ rows) l h = (omega (arith, l, h.0), weaken-NoOlder m n rows l h.1)

insert-IsOldestFirst :
    (r : WorkItemRow) (rows : List WorkItemRow)
    → IsOldestFirst rows
    → IsOldestFirst (insert_row r rows)
unfolding insert_row IsOldestFirst
insert-IsOldestFirst r [] h = (tt, tt)
insert-IsOldestFirst r (s ∷ rows) h = elim (Bool-cases (stands_before r s)) [
  | inl e ↦
      let l : r.created_at ≤ s.created_at = ground arith in
      rw e ((l, weaken-NoOlder r.created_at s.created_at rows l h.0), h)
  | inr e ↦
      let l : s.created_at ≤ r.created_at = ground arith in
      rw e (insert-NoOlder s.created_at r rows l h.0, insert-IsOldestFirst r rows h.1)
]

order-IsOldestFirst : (rows : List WorkItemRow) → IsOldestFirst (order_rows rows)
unfolding order_rows IsOldestFirst
order-IsOldestFirst [] = tt
order-IsOldestFirst (r ∷ rows) = insert-IsOldestFirst r (order_rows rows) (order-IsOldestFirst rows)

length-take : (k : ℕ) (rows : List WorkItemRow) → length (map item_of (take k rows)) ≤ k
unfolding take
length-take k [] = omega arith
length-take zero (r ∷ rows) = omega arith
length-take (suc k) (r ∷ rows) = omega (arith, length-take k rows)

insert_row-perm : (r : WorkItemRow) (rows : List WorkItemRow) → Perm (insert_row r rows) (r ∷ rows)
unfolding insert_row
insert_row-perm r [] = Perm.rfl
insert_row-perm r (s ∷ rows) =
    insert-perm (stands_before r s) r s rows (insert_row r rows) (insert_row-perm r rows)

order_rows-perm : (rows : List WorkItemRow) → Perm (order_rows rows) rows
unfolding order_rows
order_rows-perm [] = Perm.nil
order_rows-perm (r ∷ rows) =
    Perm.trans (insert_row-perm r (order_rows rows)) (Perm.cons r (order_rows-perm rows))

-- The answer is read from an order of the pending rows of the table, by the time of creation.
pub record IsQueue (limit : ℕ) (table : List WorkItemRow) (items : List WorkItem) : Type 0 where
  pub rows : List WorkItemRow
  pub all_pending : Perm rows (filter is_pending table)
  pub oldest_first : IsOldestFirst rows
  pub read : items ≡ map item_of (take (limit_of limit) rows)
  pub bounded : length items ≤ limit_of limit

-- The pending work items are the first ones of an order of all the pending rows of the table, oldest
-- first by the time of creation: `limit` of them, or 100 if the limit is not positive, or all if there are
-- fewer.
pub pending_in_order :
    (limit : ℕ) (w : Db) (items : List WorkItem)
    → (pending_work_items limit w).0 ≡ ok items
    → IsQueue limit w.tables.work_items items
unfolding pending_work_items statement
pending_in_order limit w items q =
    let pending = filter is_pending w.tables.work_items in
    let e : items ≡ map item_of (take (limit_of limit) (order_rows pending)) = ground arith in
    record {
      rows = order_rows pending;
      all_pending = order_rows-perm pending;
      oldest_first = order-IsOldestFirst pending;
      read = e;
      bounded = rw e (length-take (limit_of limit) (order_rows pending));
    }
