-- ===== src/Sql.antt =====
-- The SQLite connection of internal/eventdelivery/store: what a statement, a query and a
-- transaction do to the tables, and that any of them may report an error.
--
-- `faults` is the schedule of the engine's errors: each statement, BEGIN and COMMIT takes the next
-- entry, `true` makes it report an error and change nothing, and an empty schedule has no errors.
-- A transaction that reports an error is rolled back. The WHERE, OR IGNORE and REFERENCES clauses
-- are written out at each statement of `Store`.
pub mod Laws
use botfam.Base.{
  ℕ, ◌≡◌, Bool, true, false, List, [], ◌∷◌, Error, engine, Result, ok, err, Exec, if◌then◌else◌,
}

-- PRAGMA foreign_keys of the connection, and what strftime('now') reads.
pub record Env : Type 0 where
  pub foreign_keys : Bool
  pub now : ℕ

pub record World (T : Type 0) : Type 0 where
  pub tables : T
  pub env : Env
  pub faults : List Bool

abbrev pub faulty : List Bool → Bool
faulty [] = false
faulty (f ∷ rest) = f

abbrev pub rest_of : List Bool → List Bool
rest_of [] = []
rest_of (f ∷ rest) = rest

module _ {T : Type 0} where
  abbrev pub skip : World T → World T
  skip w = record w { faults = rest_of w.faults }

module _ {T A : Type 0} where
  abbrev pub finish : Result (A × T) → World T → Result A × World T
  finish (ok (a, t)) w = (ok a, record w { tables = t })
  finish (err e) w = (err e, w)

  -- db.ExecContext and db.QueryRowContext
  unfoldable pub statement : (Env → T → Result (A × T)) → Exec (World T) A
  statement f w =
      if faulty w.faults then (err engine, skip w) else finish (f w.env w.tables) (skip w)

  -- tx.Commit, or the deferred tx.Rollback after an error
  abbrev pub end_transaction : T → Result A → World T → Result A × World T
  end_transaction old (ok a) w =
      if faulty w.faults then (err engine, record (skip w) { tables = old }) else (ok a, skip w)
  end_transaction old (err e) w = (err e, record w { tables = old })

  abbrev pub close_transaction : T → Result A × World T → Result A × World T
  close_transaction old (r, w) = end_transaction old r w

  -- db.BeginTx, the body, and its end
  unfoldable pub transaction : Exec (World T) A → Exec (World T) A
  transaction m w =
      if faulty w.faults then (err engine, skip w) else close_transaction w.tables (m (skip w))
