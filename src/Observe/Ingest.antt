-- ===== src/Observe/Ingest.antt =====
-- Ingesting observations: the counts, and that a second time changes nothing.
use botfam.Base.{
  ℕ, ◌+◌, ◌≡◌, refl, sym, Bool, true, List, [], ◌∷◌, String, nat_eq, eq_refl, arith, ok, err,
  Result, any, any-append, length, length-append, All, continue, Exec, if◌then◌else◌,
}
use botfam.Sql.{statement}
use botfam.Store.{Tables, Db, ObservationRow}
use botfam.Observe.{Observation, event_id}
use botfam.Observe.Record.{
  observation_row, same_event, insert_observation, IngestResult, count_rows, ingest_from, ingest,
  valid_class,
}
use botfam.Observe.Grows.{Grows, ingest_from-Keeps}

-- The rows that the insert of an observation affects, and the rows that are then there.
insert_counts :
    (run_id : String) (o : Observation) (w : Db) (n : ℕ)
    → (statement (λ env. insert_observation (observation_row run_id o env.now) env) w).0 ≡ ok n
    → let t =
        (statement (λ env. insert_observation (observation_row run_id o env.now) env) w).1.tables in
      (length t.observations ≡ length w.tables.observations + (if nat_eq n 1 then 1 else 0))
unfolding statement
insert_counts run_id o w n q =
    ground (arith, length-append w.tables.observations (observation_row run_id o w.env.now ∷ []))

record IsCounted (obs : List Observation) (res : IngestResult) (before after : List ObservationRow)
    (out : IngestResult) : Type 0 where
  all_counted : out.inserted + out.deduped ≡ res.inserted + res.deduped + length obs
  rows : length after + res.inserted ≡ length before + out.inserted

abbrev insert : String → Observation → Exec Db ℕ
insert run_id o = statement λ env. insert_observation (observation_row run_id o env.now) env

continue_counts :
    (run_id : String) (res : IngestResult) (o : Observation) (obs : List Observation) (w : Db)
    (out : IngestResult)
    → ((n : ℕ) (w' : Db)
        → (ingest_from run_id (count_rows res n) obs w').0 ≡ ok out
        → IsCounted obs
            (count_rows res n)
            w'.tables.observations
            (ingest_from run_id (count_rows res n) obs w').1.tables.observations
            out)
    → (r : Result ℕ) → r ≡ (insert run_id o w).0
    → (continue r (λ n. ingest_from run_id (count_rows res n) obs) (insert run_id o w).1).0 ≡ ok out
    → IsCounted
        (o ∷ obs)
        res
        w.tables.observations
        (continue r
          (λ n. ingest_from run_id (count_rows res n) obs)
          (insert run_id o w).1).1.tables.observations
        out
continue_counts run_id res o obs w out rest (ok n) e q =
    let later = rest n _ q in
    let here = insert_counts run_id o w n (sym e) in
    record {
      all_counted = ground (arith, later.all_counted);
      rows = ground (arith, later.rows, here);
    }
continue_counts run_id res o obs w out rest (err e) f q = cc

ingest_from_counts :
    (run_id : String) (res : IngestResult) (obs : List Observation) (w : Db) (out : IngestResult)
    → (ingest_from run_id res obs w).0 ≡ ok out
    → IsCounted obs res w.tables.observations
        (ingest_from run_id res obs w).1.tables.observations
        out
unfolding ingest_from
ingest_from_counts run_id res [] w out q = record {
  all_counted = ground arith;
  rows = ground arith;
}
ingest_from_counts run_id res (o ∷ obs) w out q =
    continue_counts run_id res o obs w out
      (λ n w' q'. ingest_from_counts run_id (count_rows res n) obs w' out q') _ refl q

-- A batch that is ingested without an error is counted in full, and the table grows by the number
-- of the inserted observations.
pub ingest_counts :
    (run_id : String) (obs : List Observation) (w : Db) (res : IngestResult)
    → (ingest run_id obs w).0 ≡ ok res
    → (res.inserted + res.deduped ≡ length obs)
      × (length (ingest run_id obs w).1.tables.observations
          ≡ length w.tables.observations + res.inserted)
unfolding ingest
ingest_counts run_id obs w res q =
    let c = ingest_from_counts run_id _ obs w res q in
    (ground (arith, c.all_counted), ground (arith, c.rows))

-- Has the event been recorded?
abbrev pub recorded : Observation → Tables → Bool
recorded o t = any (same_event (observation_row "" o 0)) t.observations

pub recorded-Grows : (o : Observation) → Grows (λ t. recorded o t ≡ true)
recorded-Grows o = record {
  observation = λ t r n h.
      ground (arith, any-append (same_event (observation_row "" o 0)) t.observations (r ∷ []));
  work_item = λ t r n h. h;
  transition = λ t r h. h;
}

self_recorded :
    (run_id : String) (o : Observation) (now : ℕ)
    → any (same_event (observation_row "" o 0)) (observation_row run_id o now ∷ []) ≡ true
unfolding any
self_recorded run_id o now = ground (arith, eq_refl (event_id o))

pub insert_recorded :
    (run_id : String) (o : Observation) (w : Db) (n : ℕ)
    → valid_class o.event_class ≡ true
    → (statement (λ env. insert_observation (observation_row run_id o env.now) env) w).0 ≡ ok n
    → recorded o
        (statement (λ env. insert_observation (observation_row run_id o env.now) env) w).1.tables
      ≡ true
unfolding statement
insert_recorded run_id o w n v q = ground (
  arith,
  any-append (same_event (observation_row "" o 0)) w.tables.observations
      (observation_row run_id o w.env.now ∷ []),
  self_recorded run_id o w.env.now,
)

-- The insert of a recorded event affects no row and changes nothing.
pub insert_again :
    (run_id : String) (o : Observation) (w : Db)
    → recorded o w.tables ≡ true
    → let out = statement (λ env. insert_observation (observation_row run_id o env.now) env) w in
      ((n : ℕ) → out.0 ≡ ok n → n ≡ 0) × (out.1.tables ≡ w.tables)
unfolding statement
insert_again run_id o w h = (λ n q. ground arith, ground arith)

abbrev AllRecorded : List Observation → Tables → Type 0
AllRecorded obs t = All (λ o. recorded o t ≡ true) obs

abbrev HasValidClass : Observation → Type 0
HasValidClass o = valid_class o.event_class ≡ true

record IsIdle (obs : List Observation) (res : IngestResult) (w : Db)
    (out : Result IngestResult × Db) : Type 0 where
  same_tables : out.1.tables ≡ w.tables
  counts :
      (res' : IngestResult)
      → out.0 ≡ ok res'
      → (res'.inserted ≡ res.inserted) × (res'.deduped ≡ res.deduped + length obs)

continue-IsIdle :
    (run_id : String) (res : IngestResult) (o : Observation) (obs : List Observation) (w w' : Db)
    → ((w' : Db) (res : IngestResult)
        → w'.tables ≡ w.tables
        → IsIdle obs res w' (ingest_from run_id res obs w'))
    → (r : Result ℕ) → ((n : ℕ) → r ≡ ok n → n ≡ 0)
    → w'.tables ≡ w.tables
    → IsIdle (o ∷ obs) res w (continue r (λ n. ingest_from run_id (count_rows res n) obs) w')
continue-IsIdle run_id res o obs w w' rest (ok n) z t =
    let i = rest w' (count_rows res n) t in
    let n0 = z n refl in
    record {
      same_tables = ground (arith, i.same_tables);
      counts = λ res' q. (ground (arith, i.counts res' q), ground (arith, i.counts res' q));
    }
continue-IsIdle run_id res o obs w w' rest (err e) z t = record {
  same_tables = t;
  counts = λ res' q. cc;
}

ingest_from-IsIdle :
    (run_id : String) (obs : List Observation) (w : Db) (res : IngestResult)
    → AllRecorded obs w.tables
    → IsIdle obs res w (ingest_from run_id res obs w)
unfolding ingest_from
ingest_from-IsIdle run_id [] w res h = record {
  same_tables = refl;
  counts = λ res' q. (ground arith, ground arith);
}
ingest_from-IsIdle run_id (o ∷ obs) w res h =
    let again = insert_again run_id o w h.0 in
    continue-IsIdle run_id res o obs w _
      (λ w' res t. ingest_from-IsIdle run_id obs w' res (rw t h.1)) _ again.0 again.1

continue_recorded :
    (run_id : String) (res : IngestResult) (o : Observation) (obs : List Observation) (w : Db)
    (out : IngestResult)
    → ((n : ℕ) (w' : Db)
        → (ingest_from run_id (count_rows res n) obs w').0 ≡ ok out
        → AllRecorded obs (ingest_from run_id (count_rows res n) obs w').1.tables)
    → HasValidClass o
    → (r : Result ℕ) → r ≡ (insert run_id o w).0
    → (continue r (λ n. ingest_from run_id (count_rows res n) obs) (insert run_id o w).1).0 ≡ ok out
    → AllRecorded
        (o ∷ obs)
        (continue r (λ n. ingest_from run_id (count_rows res n) obs) (insert run_id o w).1).1.tables
continue_recorded run_id res o obs w out rest v (ok n) e q = (
  (ingest_from-Keeps (recorded-Grows o) run_id (count_rows res n) obs).at _
      (insert_recorded run_id o w n v (sym e)),
  rest n _ q,
)
continue_recorded run_id res o obs w out rest v (err e) f q = cc

ingest_from_recorded :
    (run_id : String) (obs : List Observation) (res : IngestResult) (w : Db) (out : IngestResult)
    → All HasValidClass obs
    → (ingest_from run_id res obs w).0 ≡ ok out
    → AllRecorded obs (ingest_from run_id res obs w).1.tables
unfolding ingest_from
ingest_from_recorded run_id [] res w out v q = tt
ingest_from_recorded run_id (o ∷ obs) res w out v q =
    continue_recorded run_id res o obs w out
      (λ n w' q'. ingest_from_recorded run_id obs (count_rows res n) w' out v.1 q') v.0 _ refl q

-- A batch that is ingested a second time, after a first time without an error, changes nothing, and
-- if no error is reported all of it is counted as `Deduped`. The classes are those of the CHECK.
pub ingest_again :
    (run_id : String) (obs : List Observation) (w : Db) (res : IngestResult)
    → All HasValidClass obs
    → (ingest run_id obs w).0 ≡ ok res
    → let out = ingest run_id obs (ingest run_id obs w).1 in
      (out.1.tables ≡ (ingest run_id obs w).1.tables)
      × ((res' : IngestResult)
          → out.0 ≡ ok res'
          → res' ≡ record { inserted = 0; deduped = length obs })
unfolding ingest
ingest_again run_id obs w res v q =
    let i =
      ingest_from-IsIdle run_id obs (ingest run_id obs w).1 (record { inserted = 0; deduped = 0 })
        (ingest_from_recorded run_id obs _ w res v q) in
    (i.same_tables, λ res' q'. ground (arith, i.counts res' q'))
