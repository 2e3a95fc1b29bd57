-- ===== src/Store/Migrations.antt =====
-- ApplyMigrations of internal/eventdelivery/store/store.go. What SQLite makes of the script of a migration is a
-- function on the schema, a field of the migration; the scripts themselves are the rows of Store.
use botfam.Base.{
  ℕ, ◌≡◌, ◌∙◌, refl, Bool, true, List, [], ◌∷◌, ◌++◌, String, All, any, any-append, nat_eq, ltb,
  length, filter, arith, Result, ok, err, Exec, pure, continue, ◌>>=◌, ◌>>◌, Bool-cases, inl, inr,
  if◌then◌else◌,
}
use botfam.Sql.{Env, World, statement, transaction, skip, faulty}
use botfam.Sql.Laws.{Keeps, Keeps-statement, Keeps-transaction, Keeps-pure, Keeps-if, Keeps-bind}

pub record Migration (S : Type 0) : Type 0 where
  pub version : ℕ
  pub name : String
  pub sql : S → Result S

-- schema_migrations, whose creation is IF NOT EXISTS, and the rest of the database.
pub record Catalog (S : Type 0) : Type 0 where
  pub versions : List ℕ
  pub schema : S

count_has :
    (v : ℕ) (xs : List ℕ) → any (λ x. nat_eq x v) xs ≡ ltb 0 (length (filter (λ x. nat_eq x v) xs))
unfolding any filter
count_has v [] = ground arith
count_has v (x ∷ xs) = ground (arith, count_has v xs)

self_version : (v : ℕ) → any (λ x. nat_eq x v) (v ∷ []) ≡ true
unfolding any
self_version v = ground arith

module _ {S : Type 0} where
  abbrev pub count_version : ℕ → Env → Catalog S → Result (ℕ × Catalog S)
  count_version v env c = ok (length (filter (λ x. nat_eq x v) c.versions), c)

  abbrev pub put_schema : Catalog S → Result S → Result (Unit {0} × Catalog S)
  put_schema c (ok s) = ok (tt, record c { schema = s })
  put_schema c (err e) = err e

  -- INSERT INTO schema_migrations: the version is the primary key, and has just been counted.
  abbrev pub insert_version : ℕ → Env → Catalog S → Result (Unit {0} × Catalog S)
  insert_version v env c = ok (tt, record c { versions = c.versions ++ v ∷ [] })

  abbrev pub create_table : Env → Catalog S → Result (Unit {0} × Catalog S)
  create_table env c = ok (tt, c)

  -- the body of the transaction of applyMigration
  unfoldable pub migration_body : Migration S → Exec (World (Catalog S)) (Unit {0})
  migration_body m = do
    exists ← statement (count_version m.version)
    if ltb 0 exists then pure tt else do
      statement (λ env c. put_schema c (m.sql c.schema))
      statement (insert_version m.version)

  -- applyMigration
  unfoldable pub apply_migration : Migration S → Exec (World (Catalog S)) (Unit {0})
  apply_migration m = transaction (migration_body m)

  -- The loop of ApplyMigrations.
  unfoldable pub apply_from : List (Migration S) → Exec (World (Catalog S)) (Unit {0})
  apply_from [] = pure tt
  apply_from (m ∷ ms) = do apply_migration m; apply_from ms

  unfoldable pub apply_migrations : List (Migration S) → Exec (World (Catalog S)) (Unit {0})
  apply_migrations ms = do statement create_table; apply_from ms

  abbrev pub has_version : ℕ → Catalog S → Bool
  has_version v c = any (λ x. nat_eq x v) c.versions

  body_applied :
      (m : Migration S) (w : World (Catalog S))
      → (migration_body m w).0 ≡ ok tt
      → has_version m.version (migration_body m w).1.tables ≡ true
  unfolding migration_body statement
  body_applied m w q = ground (
    arith,
    count_has m.version w.tables.versions,
    self_version m.version,
    any-append (λ x. nat_eq x m.version) w.tables.versions (m.version ∷ []),
  )

  -- A migration that was applied is not applied again.
  body_again :
      (m : Migration S) (w : World (Catalog S))
      → has_version m.version w.tables ≡ true
      → (migration_body m w).1.tables ≡ w.tables
  unfolding migration_body statement
  body_again m w h = ground (arith, count_has m.version w.tables.versions)

  apply_applied :
      (m : Migration S) (w : World (Catalog S))
      → (apply_migration m w).0 ≡ ok tt
      → has_version m.version (apply_migration m w).1.tables ≡ true
  unfolding apply_migration transaction
  apply_applied m w q = ground (arith, body_applied m (skip w))

  apply_again :
      (m : Migration S) (w : World (Catalog S))
      → has_version m.version w.tables ≡ true
      → (apply_migration m w).1.tables ≡ w.tables
  unfolding apply_migration transaction
  apply_again m w h = ground (arith, body_again m (skip w))

  schema_versions :
      (v : ℕ) (c c' : Catalog S) (a : Unit {0}) (r : Result S)
      → has_version v c ≡ true
      → put_schema c r ≡ ok (a, c')
      → has_version v c' ≡ true
  schema_versions v c c' a (ok s) h q = ground arith
  schema_versions v c c' a (err e) h q = cc

  apply-Keeps : (v : ℕ) (m : Migration S) → Keeps (λ c. has_version v c ≡ true) (apply_migration m)
  unfolding apply_migration migration_body
  apply-Keeps v m = Keeps-transaction _ (
      Keeps-bind _ _ (Keeps-statement _ λ env c a c' h q. ground arith) λ n.
        Keeps-if _ _ _ (Keeps-pure tt) (
          Keeps-bind _ _
            (Keeps-statement _ λ env c a c' h q. schema_versions v c c' a (m.sql c.schema) h q)
            λ _. Keeps-statement _ λ env c a c' h q.
              ground (arith, any-append (λ x. nat_eq x v) c.versions (m.version ∷ []))))

  from-Keeps :
      (v : ℕ) (ms : List (Migration S)) → Keeps (λ c. has_version v c ≡ true) (apply_from ms)
  unfolding apply_from
  from-Keeps v [] = Keeps-pure tt
  from-Keeps v (m ∷ ms) = Keeps-bind _ _ (apply-Keeps v m) λ _. from-Keeps v ms

  abbrev pub AllApplied : List (Migration S) → Catalog S → Type 0
  AllApplied ms c = All (λ (m : Migration S). has_version m.version c ≡ true) ms

  rest_applied :
      (m : Migration S) (ms : List (Migration S)) (w' : World (Catalog S)) (r : Result (Unit {0}))
      → ((w : World (Catalog S))
          → (apply_from ms w).0 ≡ ok tt
          → AllApplied ms (apply_from ms w).1.tables)
      → (r ≡ ok tt → has_version m.version w'.tables ≡ true)
      → (continue r (λ _. apply_from ms) w').0 ≡ ok tt
      → AllApplied (m ∷ ms) (continue r (λ _. apply_from ms) w').1.tables
  rest_applied m ms w' (ok u) k h q = ((from-Keeps m.version ms).at w' (h refl), k w' q)
  rest_applied m ms w' (err e) k h q = cc

  from_applied :
      (ms : List (Migration S)) (w : World (Catalog S))
      → (apply_from ms w).0 ≡ ok tt
      → AllApplied ms (apply_from ms w).1.tables
  unfolding apply_from
  from_applied [] w q = tt
  from_applied (m ∷ ms) w q =
      rest_applied m ms _ _ (λ w q. from_applied ms w q) (apply_applied m w) q

  rest_again :
      (ms : List (Migration S)) (w w' : World (Catalog S)) (r : Result (Unit {0}))
      → ((w : World (Catalog S)) → AllApplied ms w.tables → (apply_from ms w).1.tables ≡ w.tables)
      → AllApplied ms w.tables
      → w'.tables ≡ w.tables
      → (continue r (λ _. apply_from ms) w').1.tables ≡ w.tables
  rest_again ms w w' (ok u) k h e = k w' (rw e h) ∙ e
  rest_again ms w w' (err x) k h e = e

  from_again :
      (ms : List (Migration S)) (w : World (Catalog S))
      → AllApplied ms w.tables
      → (apply_from ms w).1.tables ≡ w.tables
  unfolding apply_from
  from_again [] w h = refl
  from_again (m ∷ ms) w h = rest_again ms w _ _ (λ w h. from_again ms w h) h.1 (apply_again m w h.0)

  created_same :
      (ms : List (Migration S)) (w : World (Catalog S))
      → AllApplied ms w.tables
      → (apply_migrations ms w).1.tables ≡ w.tables
  unfolding apply_migrations statement
  created_same ms w h = elim (Bool-cases (faulty w.faults)) [
    | inl e ↦ rw e refl
    | inr e ↦ rw e (from_again ms (skip w) h)
  ]

  created_applied :
      (ms : List (Migration S)) (w : World (Catalog S))
      → (apply_migrations ms w).0 ≡ ok tt
      → AllApplied ms (apply_migrations ms w).1.tables
  unfolding apply_migrations statement
  created_applied ms w q = elim (Bool-cases (faulty w.faults)) [
    | inl e ↦ absurd (ground arith)
    | inr e ↦ rw e (from_applied ms (skip w) (rw e at q))
  ]

  -- Once the migrations have been applied without an error, all their versions are recorded, and applying
  -- them again changes nothing, neither the schema nor the versions, whatever errors the engine reports.
  pub apply_migrations_again :
      (ms : List (Migration S)) (w : World (Catalog S))
      → (apply_migrations ms w).0 ≡ ok tt
      → AllApplied ms (apply_migrations ms w).1.tables
        × ((apply_migrations ms (apply_migrations ms w).1).1.tables
            ≡ (apply_migrations ms w).1.tables)
  apply_migrations_again ms w q =
      let a = created_applied ms w q in (a, created_same ms (apply_migrations ms w).1 a)
