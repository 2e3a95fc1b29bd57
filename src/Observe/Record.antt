-- ===== src/Observe/Record.antt =====
-- internal/eventdelivery/observe: the statements that write observations and work items, and
-- ingest.go.
use Prim.Native.String.{◌++◌ as append}
use botfam.Base.{
  ℕ, ◌+◌, Bool, true, not, ◌&&◌, ◌||◌, List, [], ◌∷◌, ◌++◌, Option, none, some, String, ◌==◌,
  nat_eq, any, foreign_key, Result, ok, err, Exec, pure, ◌>>=◌, if◌then◌else◌,
}
use botfam.Sql.{Env, statement}
use botfam.Store.{Tables, Db, RunRow, ObservationRow, WorkItemRow, WorkState, TransitionRow}
use botfam.Observe.{Observation, event_id, class_stable_id, class_synthetic_id, class_query_only}

-- sql.NullString of the thread id
abbrev null_string : String → Option String
null_string s = if s == "" then none else some s

abbrev pub observation_row : String → Observation → ℕ → ObservationRow
observation_row run_id o now = record {
  id = event_id o;
  run_id = run_id;
  source = o.source;
  repo = o.repo;
  artifact_kind = o.artifact_kind;
  artifact_number = o.artifact_number;
  notification_thread_id = null_string o.notification_thread_id;
  event_kind = o.event_kind;
  event_key = o.event_key;
  event_class = o.event_class;
  source_query = o.source_query;
  payload_json = o.payload_json;
  observed_at = now;
}

-- PRIMARY KEY and UNIQUE (source, repo, artifact_kind, artifact_number, event_kind, event_key)
abbrev pub same_event : ObservationRow → ObservationRow → Bool
same_event r s =
    r.id == s.id
    || (r.source == s.source
        && r.repo == s.repo
        && r.artifact_kind == s.artifact_kind
        && nat_eq r.artifact_number s.artifact_number
        && r.event_kind == s.event_kind
        && r.event_key == s.event_key)

-- CHECK (event_class IN (…))
abbrev pub valid_class : String → Bool
valid_class c = c == class_stable_id || c == class_synthetic_id || c == class_query_only

abbrev pub run_exists : Env → Tables → String → Bool
run_exists env t id = not env.foreign_keys || any (λ (r : RunRow). r.id == id) t.runs

-- INSERT OR IGNORE INTO raw_observations: the rows affected. A violated PRIMARY KEY, UNIQUE or CHECK
-- makes the insert nothing, a run that does not exist is an error.
abbrev pub insert_observation : ObservationRow → Env → Tables → Result (ℕ × Tables)
insert_observation r env t =
    if any (same_event r) t.observations || not (valid_class r.event_class)
    then ok (0, t)
    else if run_exists env t r.run_id
    then ok (1, record t { observations = t.observations ++ r ∷ [] })
    else err foreign_key

-- recordObservation
unfoldable pub record_observation : String → Observation → Exec Db Bool
record_observation run_id o = do
  n ← statement λ env. insert_observation (observation_row run_id o env.now) env
  pure (nat_eq n 1)

pub record IngestResult : Type 0 where
  pub inserted : ℕ
  pub deduped : ℕ

abbrev pub count_rows : IngestResult → ℕ → IngestResult
count_rows res n =
    if nat_eq n 1
    then record res { inserted = res.inserted + 1 }
    else record res { deduped = res.deduped + 1 }

-- The loop of Ingest. The counts that it returns beside an error are left out.
unfoldable pub ingest_from : String → IngestResult → List Observation → Exec Db IngestResult
ingest_from run_id res [] = pure res
ingest_from run_id res (o ∷ obs) = do
  n ← statement λ env. insert_observation (observation_row run_id o env.now) env
  ingest_from run_id (count_rows res n) obs

unfoldable pub ingest : String → List Observation → Exec Db IngestResult
ingest run_id obs = ingest_from run_id (record { inserted = 0; deduped = 0 }) obs

-- workItemID
abbrev pub work_item_id : String → String
work_item_id event_id = append "wi:" event_id

abbrev pub work_item_row : String → String → String → ℕ → ℕ → WorkItemRow
work_item_row event_id kind title scope_generation now = record {
  id = work_item_id event_id;
  raw_observation_id = some event_id;
  kind = kind;
  source_id = event_id;
  title = title;
  body = "";
  scope_generation = scope_generation;
  state = WorkState.pending;
  created_at = now;
}

-- PRIMARY KEY and UNIQUE (kind, source_id, scope_generation)
abbrev pub same_item : WorkItemRow → WorkItemRow → Bool
same_item r s =
    r.id == s.id
    || (r.kind == s.kind
        && r.source_id == s.source_id
        && nat_eq r.scope_generation s.scope_generation)

abbrev pub observation_exists : Env → Tables → Option String → Bool
observation_exists env t none = true
observation_exists env t (some id) =
    not env.foreign_keys || any (λ (r : ObservationRow). r.id == id) t.observations

-- INSERT OR IGNORE INTO work_items: the rows affected
abbrev pub insert_work_item : WorkItemRow → Env → Tables → Result (ℕ × Tables)
insert_work_item r env t =
    if any (same_item r) t.work_items
    then ok (0, t)
    else if observation_exists env t r.raw_observation_id
    then ok (1, record t { work_items = t.work_items ++ r ∷ [] })
    else err foreign_key

abbrev pub transition_row : String → ℕ → TransitionRow
transition_row id now = record {
  work_item_id = id;
  to_state = WorkState.pending;
  reason = "translated from event";
  transitioned_at = now;
}

-- INSERT INTO work_item_state_transitions
abbrev insert_transition : String → Env → Tables → Result (Unit {0} × Tables)
insert_transition id env t =
    if not env.foreign_keys || any (λ (r : WorkItemRow). r.id == id) t.work_items
    then ok (tt, record t { transitions = t.transitions ++ transition_row id env.now ∷ [] })
    else err foreign_key

-- createWorkItem
unfoldable pub create_work_item : ℕ → String → String → String → Exec Db (Unit {0})
create_work_item scope_gen event_id kind title = do
  n ← statement λ env. insert_work_item (work_item_row event_id kind title scope_gen env.now) env
  if nat_eq n 0 then pure tt else statement (insert_transition (work_item_id event_id))
