-- ===== src/Store/Records.antt =====
-- internal/eventdelivery/store/store.go: runs, artifacts, telemetry spans and the git action log. A random
-- id of uuid.NewString is an argument, and a row number is the place in the list.
use botfam.Base.{
  ℕ, ◌≡◌, Bool, true, not, ◌&&◌, ◌||◌, [], ◌∷◌, ◌++◌, Option, none, some, false, String, ◌==◌, any,
  any-append, eq_refl, arith, message, foreign_key, Result, ok, err, Exec, raise, if◌then◌else◌,
}
use botfam.Base.Text.{is_blank}
use botfam.Sql.{Env, statement, faulty}
use botfam.Store.{Tables, Db, RunRow, WorkItemRow, ArtifactRow, SpanRow, GitActionRow}

abbrev run_row : String → String → ℕ → RunRow
run_row id session_id now = record { id = id; session_id = session_id; started_at = now }

-- INSERT OR IGNORE INTO runs
abbrev pub insert_run : RunRow → Env → Tables → Result (Unit {0} × Tables)
insert_run r env t =
    if any (λ (s : RunRow). s.id == r.id) t.runs
    then ok (tt, t)
    else ok (tt, record t { runs = t.runs ++ r ∷ [] })

-- StartRun
unfoldable pub start_run : String → String → Exec Db (Unit {0})
start_run id session_id =
    if is_blank id || is_blank session_id
    then raise (message "run id and session id are required")
    else statement λ env. insert_run (run_row id session_id env.now) env

-- strings.TrimSpace(s) == "" replaced by a default
abbrev pub or_default : String → String → String
or_default d s = if is_blank s then d else s

abbrev pub same_artifact : ArtifactRow → ArtifactRow → Bool
same_artifact r s = r.id == s.id || (r.kind == s.kind && r.uri == s.uri && r.sha256 == s.sha256)

abbrev pub artifact_row : String → String → String → String → String → ℕ → ArtifactRow
artifact_row id work_item_id kind uri sha256 now = record {
  id = id;
  work_item_id = work_item_id;
  kind = kind;
  uri = uri;
  sha256 = sha256;
  created_at = now;
}

-- INSERT OR IGNORE INTO artifacts
abbrev pub insert_artifact : ArtifactRow → Env → Tables → Result (Unit {0} × Tables)
insert_artifact r env t =
    if any (same_artifact r) t.artifacts
    then ok (tt, t)
    else if not env.foreign_keys || any (λ (w : WorkItemRow). w.id == r.work_item_id) t.work_items
    then ok (tt, record t { artifacts = t.artifacts ++ r ∷ [] })
    else err foreign_key

-- RecordArtifact
unfoldable pub record_artifact :
    String → String → String → String → String → String → Exec Db (Unit {0})
record_artifact new_id id work_item_id kind uri sha256 =
    if is_blank work_item_id || is_blank kind || is_blank uri
    then raise (message "work item id, kind, and uri are required")
    else statement λ env.
      insert_artifact (artifact_row (or_default new_id id) work_item_id kind uri sha256 env.now) env

-- INSERT INTO telemetry_spans; `print_time` is strftime('now') of the default.
abbrev pub insert_span : SpanRow → Env → Tables → Result (Unit {0} × Tables)
insert_span r env t = ok (tt, record t { spans = t.spans ++ r ∷ [] })

-- RecordTelemetrySpan
unfoldable pub record_telemetry_span :
    (ℕ → String) → String → String → String → String → String → String → Exec Db (Unit {0})
record_telemetry_span print_time trace_id span_id component event_type payload_json timestamp =
    statement λ env.
      insert_span
        (record {
          trace_id = trace_id;
          span_id = span_id;
          component = component;
          event_type = event_type;
          payload_json = or_default "{}" payload_json;
          timestamp = or_default (print_time env.now) timestamp;
        })
        env

-- NULLIF(run_id, '')
abbrev pub null_if_empty : String → Option String
null_if_empty s = if s == "" then none else some s

abbrev run_known : Env → Tables → Option String → Bool
run_known env t none = true
run_known env t (some id) = not env.foreign_keys || any (λ (r : RunRow). r.id == id) t.runs

-- INSERT INTO git_action_log: a taken id is an error of the PRIMARY KEY.
abbrev pub insert_git_action : GitActionRow → Env → Tables → Result (Unit {0} × Tables)
insert_git_action r env t =
    if any (λ (s : GitActionRow). s.id == r.id) t.git_log
    then err (message "UNIQUE constraint failed: git_action_log.id")
    else if run_known env t r.run_id
    then ok (tt, record t { git_log = t.git_log ++ r ∷ [] })
    else err foreign_key

-- LogGitAction
unfoldable pub log_git_action :
    String → String → String → String → String → String → String → Exec Db (Unit {0})
log_git_action new_id id run_id action trace_id span_id payload_json =
    if is_blank action
    then raise (message "git action is required")
    else statement λ env.
      insert_git_action
        (record {
          id = or_default new_id id;
          run_id = null_if_empty run_id;
          action = action;
          trace_id = trace_id;
          span_id = span_id;
          payload_json = or_default "{}" payload_json;
          created_at = env.now;
        })
        env

any_run :
    (id session_id : String) (now : ℕ)
    → any (λ (s : RunRow). s.id == id) (run_row id session_id now ∷ []) ≡ true
unfolding any
any_run id session_id now = ground (arith, eq_refl id)

-- A run that has been started is there, and starting it again, with any session id that is not blank and
-- without an error of the engine, succeeds and changes no row.
pub start_run_again :
    (id session_id session_id' : String) (w : Db)
    → (start_run id session_id w).0 ≡ ok tt
    → is_blank session_id' ≡ false
    → faulty (start_run id session_id w).1.faults ≡ false
    → let later = (start_run id session_id w).1 in
      (any (λ (r : RunRow). r.id == id) later.tables.runs ≡ true)
      × ((start_run id session_id' later).0 ≡ ok tt)
      × ((start_run id session_id' later).1.tables ≡ later.tables)
unfolding start_run statement
start_run_again id session_id session_id' w q b f =
    let there =
      any-append (λ (r : RunRow). r.id == id) w.tables.runs
        (run_row id session_id w.env.now ∷ []) in
    (
      ground (arith, there, any_run id session_id w.env.now),
      ground (arith, there, any_run id session_id w.env.now, q, b, f),
      ground (arith, there, any_run id session_id w.env.now),
    )
