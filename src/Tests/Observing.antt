-- ===== src/Tests/Observing.antt =====
-- internal/eventdelivery/observe on a concrete thread and a concrete session.db.
use botfam.Base.{
  ℕ, ◌+◌, ◌≡◌, ◌≢◌, refl, Bool, true, false, List, [], ◌∷◌, ◌++◌, none, some, String, ◌==◌, ok, any,
  filter, length, All, arith,
}
use botfam.Base.Text.{join, format_int}
use botfam.Sql.{statement}
use botfam.Store.{Db, RunRow, empty_tables}
use botfam.Observe.{
  Observation, event_id, dedupe, class_query_only, event_assigned_open, kind_pull, event_push,
  class_stable_id,
}
use botfam.Observe.Detail.{ThreadDetail, work_refresh_scope}
use botfam.Observe.Record.{
  IngestResult, ingest, ingest_from, record_observation, create_work_item, work_item_row,
  transition_row,
}
use botfam.Observe.Scalar.{
  is_first_scalar, observe_scalar_change, poll_head_sha, scalar_observation,
}
use botfam.Observe.Translate.{
  Translator, ThreadRef, DerivedEvent, EmittedWorkItem, TranslateResult, translate,
  translate_detail, translate_event, translate_events, derive_events, current_state, label_set_key,
  sort_strings, is_first_contact, observe_state, observe_labels, comment_event, emit,
}
use botfam.Observe.Ingest.{recorded, ingest_counts, ingest_again}
use botfam.Observe.Once.{event_emitted_once, head_polled_once}
use botfam.Observe.Again.{translate_again}
use botfam.Observe.NewEvent.{new_event_emitted}
use botfam.Observe.FirstContact.{first_contact_quiet}
use botfam.Observe.Dedupe.{IsDistinct, has_event, dedupe_lossless}
use botfam.Observe.Calls.{run, translates, polls_head}

abbrev start : Db
start = record {
  tables = record empty_tables {
    runs = record { id = "r1"; session_id = "s1"; started_at = 1 } ∷ [];
  };
  env = record { foreign_keys = true; now = 9 };
  faults = [];
}

abbrev assigned : ℕ → Observation
assigned n = record {
  source = "forge";
  repo = "o/r";
  artifact_kind = "issue";
  artifact_number = n;
  notification_thread_id = "";
  event_kind = event_assigned_open;
  event_key = "standing";
  event_class = class_query_only;
  source_query = "q";
  payload_json = "{}";
}

abbrev batch : List Observation
batch = assigned 3 ∷ assigned 4 ∷ assigned 3 ∷ []

batch_test : (ingest "r1" batch start).0 ≡ ok (record { inserted = 2; deduped = 1 })
unfolding ingest ingest_from statement event_id join format_int any
batch_test = refl

ingest_counts_example :
    (2 + 1 ≡ length batch)
    × (length (ingest "r1" batch start).1.tables.observations
        ≡ length start.tables.observations + 2)
ingest_counts_example =
    ingest_counts "r1" batch start (record { inserted = 2; deduped = 1 }) batch_test

ingest_again_example :
    let out = ingest "r1" batch (ingest "r1" batch start).1 in
    (out.1.tables ≡ (ingest "r1" batch start).1.tables)
    × ((res' : IngestResult)
        → out.0 ≡ ok res'
        → res' ≡ record { inserted = 0; deduped = length batch })
ingest_again_example =
    ingest_again "r1" batch start (record { inserted = 2; deduped = 1 }) (refl, (refl, (refl, tt)))
      batch_test

abbrev detail : ThreadDetail
detail = record {
  repo = "o/r";
  kind = "pull";
  number = 5;
  state = "open";
  merged = false;
  head_sha = "abc";
  updated_at = some 8;
  comments =
      record { id = 71; updated_at = some 6; author = "ann" }
      ∷ record { id = 72; updated_at = some 8; author = "bob" }
      ∷ [];
  reviews = [];
  labels = record { id = 12; name = "bug" } ∷ record { id = 11; name = "ui" } ∷ [];
}

abbrev translator : Translator
translator = record {
  q = record {
    repo_slug = "o/r";
    fetch_thread_detail = λ kind number. ok detail;
    list_blockers = λ number. ok [];
    combined_status_state = λ ref. ok "success";
    quote = λ s. s;
  };
  wm = record { start = 7 };
}

abbrev thread : ThreadRef
thread = record { kind = "pull"; number = 5; baseline_at = none }

abbrev first_result : TranslateResult
first_result = record {
  emitted =
      record {
        id = "wi:forge:o/r:pull:5:comment:72";
        kind = "inspect_new_comment";
        source_id = "forge:o/r:pull:5:comment:72";
        event_id = "forge:o/r:pull:5:comment:72";
      }
      ∷ [];
  seeded_seen = 1;
  suppressed = 0;
  first_seen = true;
}

translate_test : (translate translator "r1" 1 thread start).0 ≡ ok first_result
unfolding translate translate_detail is_first_contact translate_events translate_event derive_events
    record_observation create_work_item observe_state observe_labels observe_scalar_change
    is_first_scalar current_state label_set_key sort_strings statement event_id join format_int any
    filter
translate_test = refl

label_test : label_set_key detail.labels ≡ "11,12"
unfolding label_set_key sort_strings join format_int
label_test = refl

translate_again_example :
    let later = (translate translator "r1" 1 thread start).1 in
    let out = translate translator "r2" 2 thread later in
    (out.1.tables ≡ later.tables)
    × ((res' : TranslateResult)
        → out.0 ≡ ok res'
        → (res'.emitted ≡ []) × (res'.seeded_seen ≡ 0) × (res'.suppressed ≡ 2 + 0))
translate_again_example =
    translate_again translator "r1" 1 thread detail start first_result "r2" 2 refl translate_test

abbrev comment : DerivedEvent
comment = comment_event detail (record { id = 72; updated_at = some 8; author = "bob" })

abbrev no_result : TranslateResult
no_result = record { emitted = []; seeded_seen = 0; suppressed = 0; first_seen = false }

record_test : (record_observation "r1" comment.obs start).0 ≡ ok true
unfolding record_observation statement any
record_test = refl

event_emitted_once_example :
    let later =
      run
        (translates translator "r1" 1 thread ∷ [])
        (translate_event "r1" 1 false 7 comment no_result start).1 in
    let out = translate_event "r1" 2 false 7 comment no_result later in
    (out.1.tables ≡ later.tables)
    × ((again : TranslateResult)
        → out.0 ≡ ok again
        → again ≡ record no_result { suppressed = 0 + 1 })
event_emitted_once_example =
    event_emitted_once "r1" 1 false 7 comment no_result start true
      (translates translator "r1" 1 thread ∷ []) "r1" 2 false 7 no_result refl record_test

run_test : any (λ (r : RunRow). r.id == "r1") start.tables.runs ≡ true
unfolding any
run_test = refl

nothing_test : {A : Type 0} (p : A → Bool) → any p [] ≡ false
unfolding any
nothing_test p = refl

new_event_emitted_example :
    let row =
      work_item_row (event_id comment.obs) comment.work_kind comment.title 1 start.env.now in
    let out = translate_event "r1" 1 false 7 comment no_result start in
    (out.0 ≡ ok (emit (event_id comment.obs) comment.work_kind no_result))
    × (out.1.tables.work_items ≡ start.tables.work_items ++ row ∷ [])
    × (out.1.tables.transitions
        ≡ start.tables.transitions ++ transition_row row.id start.env.now ∷ [])
new_event_emitted_example =
    new_event_emitted "r1" 1 false 7 comment no_result start refl run_test (nothing_test _)
      (nothing_test _) refl refl

contact_test : (is_first_contact "o/r" "pull" 5 start).0 ≡ ok true
unfolding is_first_contact statement filter
contact_test = refl

abbrev old_detail : ThreadDetail
old_detail = record detail {
  comments = record { id = 71; updated_at = some 6; author = "ann" } ∷ [];
}

abbrev old_translator : Translator
old_translator = record translator {
  q = record translator.q { fetch_thread_detail = λ kind number. ok old_detail };
}

old_test :
    (translate old_translator "r1" 1 thread start).0
    ≡ ok (record { emitted = []; seeded_seen = 1; suppressed = 0; first_seen = true })
unfolding translate translate_detail is_first_contact translate_events translate_event derive_events
    record_observation create_work_item observe_state observe_labels observe_scalar_change
    is_first_scalar current_state label_set_key sort_strings statement event_id join format_int any
    filter
old_test = refl

first_contact_quiet_example :
    All (λ (e : EmittedWorkItem). e.kind ≡ work_refresh_scope) [] × (true ≡ true)
first_contact_quiet_example =
    first_contact_quiet old_translator "r1" 1 thread old_detail start
      (record { emitted = []; seeded_seen = 1; suppressed = 0; first_seen = true }) refl
      contact_test (unfold derive_events in (λ t e. ground (arith, e), tt)) old_test

-- The head goes from `abc` to `def` and back: the first is the baseline, the second is a change, and
-- the third is no work item.
abbrev polled : Db
polled = (poll_head_sha translator.q "r1" 5 "abc" 1 start).1

recorded_test :
    recorded (scalar_observation "o/r" kind_pull 5 event_push "abc" class_stable_id) polled.tables
    ≡ true
unfolding poll_head_sha observe_scalar_change is_first_scalar record_observation create_work_item
    statement event_id join format_int any filter
recorded_test = refl

change_test : (poll_head_sha translator.q "r1" 5 "def" 1 polled).0 ≡ ok true
unfolding poll_head_sha observe_scalar_change is_first_scalar record_observation create_work_item
    statement event_id join format_int any filter
change_test = refl

head_polled_once_example :
    let later = run (polls_head translator.q "r1" 5 "def" 1 ∷ []) polled in
    let out = poll_head_sha translator.q "r1" 5 "abc" 1 later in
    (out.1.tables ≡ later.tables) × (out.0 ≢ ok true)
head_polled_once_example =
    head_polled_once translator.q "r1" 5 "abc" 1 polled
      (polls_head translator.q "r1" 5 "def" 1 ∷ []) recorded_test

dedupe_lossless_example :
    IsDistinct (dedupe batch)
    × ((id : String) → any (has_event id) (dedupe batch) ≡ any (has_event id) batch)
dedupe_lossless_example = dedupe_lossless batch
