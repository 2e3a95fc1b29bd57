-- ===== src/Store/Outbox/Enqueue.antt =====
-- Enqueuing an action twice gives one row.
use botfam.Base.{
  ℕ, ◌≡◌, true, [], ◌∷◌, some, String, eq_refl, arith, find, ok, any-find, find-append,
  Option-cases, inl, inr, ◌∙◌,
}
use botfam.Sql.{statement}
use botfam.Store.{Db, OutboxRow}
use botfam.Store.Outbox.{
  has_key, is_committed, OutboxResult, existing_result, enqueue_forge_action, new_row,
}

-- The pair has a row already.
module _ (w k : String) (r : OutboxRow) (id tool args : String) (token : ℕ) (db : Db) where
  pub enqueue_found-tables :
      find (has_key w k) db.tables.outbox ≡ some r
      → (enqueue_forge_action id w k tool args token db).1.tables ≡ db.tables
  unfolding enqueue_forge_action statement
  enqueue_found-tables found = ground (arith, any-find (has_key w k) db.tables.outbox)

  pub enqueue_found :
      (res : OutboxResult)
      → find (has_key w k) db.tables.outbox ≡ some r
      → (enqueue_forge_action id w k tool args token db).0 ≡ ok res
      → res ≡ existing_result r
  unfolding enqueue_forge_action statement
  enqueue_found res found h = ground (arith, any-find (has_key w k) db.tables.outbox)

-- An answer tells of a row that is there.
pub enqueue_answers :
    (id w k tool args : String) (token : ℕ) (db : Db) (res : OutboxResult)
    → (enqueue_forge_action id w k tool args token db).0 ≡ ok res
    → (r : OutboxRow) × (find
          (has_key w k)
          (enqueue_forge_action id w k tool args token db).1.tables.outbox
        ≡ some r)
      × (existing_result r ≡ record res { deduped = true })
unfolding enqueue_forge_action statement is_committed find
enqueue_answers id w k tool args token db res h =
    elim (Option-cases (find (has_key w k) db.tables.outbox)) [
      | inl e ↦ (
        row,
        ground (
          arith,
          any-find (has_key w k) db.tables.outbox,
          find-append (has_key w k) db.tables.outbox (row ∷ []),
          eq_refl w,
          eq_refl k,
        ),
        ground (arith, any-find (has_key w k) db.tables.outbox),
      )
      | inr (r, e) ↦ (
        r,
        ground (arith, any-find (has_key w k) db.tables.outbox),
        ground (arith, any-find (has_key w k) db.tables.outbox),
      )
    ]
  where
    row : OutboxRow
    row = new_row id w k tool args token db.env.now

-- After an action has been enqueued, enqueuing the same (work item, action key) pair again under any
-- id, tool, arguments and token changes no table; and if it answers, it answers `Deduped` with the
-- id, the committed flag and the response of the first answer.
pub enqueue_twice :
    (id w k tool args : String) (token : ℕ) (id' tool' args' : String) (token' : ℕ) (db : Db)
    (first : OutboxResult)
    → (enqueue_forge_action id w k tool args token db).0 ≡ ok first
    → let db' = (enqueue_forge_action id w k tool args token db).1 in
      let again = enqueue_forge_action id' w k tool' args' token' db' in
      (again.1.tables ≡ db'.tables)
      × ((second : OutboxResult) → again.0 ≡ ok second → second ≡ record first { deduped = true })
enqueue_twice id w k tool args token id' tool' args' token' db first h =
    let (r, found, same) = enqueue_answers id w k tool args token db first h in
    (
      enqueue_found-tables w k r id' tool' args' token' _ found,
      λ second e. enqueue_found w k r id' tool' args' token' _ second found e ∙ same,
    )
