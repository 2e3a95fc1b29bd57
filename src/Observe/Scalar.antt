-- ===== src/Observe/Scalar.antt =====
-- internal/eventdelivery/observe/gappoll.go
use Prim.Native.String.{◌++◌ as append}
use botfam.Base.{
  ℕ, Bool, true, false, not, ◌&&◌, ◌||◌, String, ◌==◌, nat_eq, filter, length, Result, ok, Exec,
  pure, ◌>>=◌, ◌>>◌, if◌then◌else◌,
}
use botfam.Base.Text.{format_int}
use botfam.Sql.{Env, statement}
use botfam.Store.{Tables, Db, ObservationRow}
use botfam.Observe.{
  Observation, event_id, source_forge, kind_pull, class_stable_id, class_query_only, event_push,
}
use botfam.Observe.Record.{record_observation, create_work_item}
use botfam.Observe.Detail.{
  event_status, work_rebuild_pr, work_check_failed_run, DetailQuerier, lift,
}

abbrev pub has_thread : String → String → ℕ → ObservationRow → Bool
has_thread repo kind number r =
    r.source == source_forge
    && r.repo == repo
    && r.artifact_kind == kind
    && nat_eq r.artifact_number number

-- SELECT COUNT(*) FROM raw_observations WHERE …
abbrev pub count_observations : (ObservationRow → Bool) → Env → Tables → Result (ℕ × Tables)
count_observations p env t = ok (length (filter p t.observations), t)

-- isFirstScalar
unfoldable pub is_first_scalar : String → String → ℕ → String → Exec Db Bool
is_first_scalar repo kind number event_kind = do
  n ←
      statement
        (count_observations (λ r. has_thread repo kind number r && r.event_kind == event_kind))
  pure (nat_eq n 0)

abbrev pub scalar_observation : String → String → ℕ → String → String → String → Observation
scalar_observation repo kind number event_kind value class = record {
  source = source_forge;
  repo = repo;
  artifact_kind = kind;
  artifact_number = number;
  notification_thread_id = "";
  event_kind = event_kind;
  event_key = value;
  event_class = class;
  source_query = "gap poll";
  payload_json = "{}";
}

-- What follows recordObservation in observeScalarChange.
abbrev pub after_scalar : ℕ → String → String → String → Bool → Bool → Exec Db (Bool × String)
after_scalar scope_gen event_id work_kind title first inserted =
    if first || not inserted
    then pure (false, event_id)
    else do create_work_item scope_gen event_id work_kind title; pure (true, event_id)

-- What follows isFirstScalar.
abbrev pub scalar_first :
    String → Observation → ℕ → String → String → Bool → Exec Db (Bool × String)
scalar_first run_id obs scope_gen work_kind title first = do
  inserted ← record_observation run_id obs
  after_scalar scope_gen (event_id obs) work_kind title first inserted

-- observeScalarChange: was a work item created, and the id of the event
unfoldable pub observe_scalar_change :
    String
    → String
    → String
    → ℕ
    → String
    → String
    → String
    → String
    → String
    → ℕ
    → Exec Db (Bool × String)
observe_scalar_change repo run_id kind number event_kind value class work_kind title scope_gen = do
  first ← is_first_scalar repo kind number event_kind
  scalar_first run_id (scalar_observation repo kind number event_kind value class) scope_gen
      work_kind title first

-- Translator.PollHeadSHA
unfoldable pub poll_head_sha : DetailQuerier → String → ℕ → String → ℕ → Exec Db Bool
poll_head_sha q run_id number head_sha scope_gen = if head_sha == "" then pure false else do
  out ←
      observe_scalar_change q.repo_slug run_id kind_pull number event_push head_sha class_stable_id
        work_rebuild_pr (append "Head SHA changed on pull #" (format_int number)) scope_gen
  pure (out.0)

abbrev pub poll_status : DetailQuerier → String → ℕ → String → ℕ → String → Exec Db Bool
poll_status q run_id number head_sha scope_gen state = if state == "" then pure false else do
  out ←
      observe_scalar_change q.repo_slug run_id kind_pull number event_status
        (append head_sha (append ":" state)) class_query_only work_check_failed_run
        (append "CI status " (append (q.quote state) (append " on pull #" (format_int number))))
        scope_gen
  pure (out.0)

-- Translator.PollCommitStatus
unfoldable pub poll_commit_status : DetailQuerier → String → ℕ → String → ℕ → Exec Db Bool
poll_commit_status q run_id number head_sha scope_gen = if head_sha == "" then pure false else do
  state ← lift (q.combined_status_state head_sha)
  poll_status q run_id number head_sha scope_gen state
