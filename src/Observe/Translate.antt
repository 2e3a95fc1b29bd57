-- ===== src/Observe/Translate.antt =====
-- internal/eventdelivery/observe/translate.go. Text is sorted by the order of the native strings.
use Prim.Native.String.{◌++◌ as append, compare}
use Prim.Native.Nat.{Ordering}
use botfam.Base.{
  ℕ, ◌+◌, Bool, true, not, ◌&&◌, ◌||◌, List, [], ◌∷◌, ◌++◌, Option, none, some, String, ◌==◌,
  nat_eq, map, Exec, pure, ◌>>=◌, ◌>>◌, if◌then◌else◌,
}
use botfam.Base.Text.{format_int, join}
use botfam.Sql.{statement}
use botfam.Store.{Db}
use botfam.Observe.{
  Observation, SessionWatermark, event_id, source_forge, class_stable_id, class_synthetic_id,
}
use botfam.Observe.Record.{record_observation, create_work_item, work_item_id}
use botfam.Observe.Detail.{
  event_comment, event_review, event_state_changed, event_label_set, work_inspect_new_comment,
  work_inspect_new_review, work_refresh_scope, CommentRef, ReviewRef, LabelRef, ThreadDetail,
  DetailQuerier, lift, after,
}
use botfam.Observe.Scalar.{observe_scalar_change, has_thread, count_observations}

pub record Translator : Type 0 where
  pub q : DetailQuerier
  pub wm : SessionWatermark

pub record ThreadRef : Type 0 where
  pub kind : String
  pub number : ℕ
  pub baseline_at : Option ℕ

pub record EmittedWorkItem : Type 0 where
  pub id : String
  pub kind : String
  pub source_id : String
  pub event_id : String

pub record TranslateResult : Type 0 where
  pub emitted : List EmittedWorkItem
  pub seeded_seen : ℕ
  pub suppressed : ℕ
  pub first_seen : Bool

pub record DerivedEvent : Type 0 where
  pub obs : Observation
  pub at : Option ℕ
  pub first_eligible : Bool
  pub work_kind : String
  pub title : String

abbrev pub is_translation_kind : String → Bool
is_translation_kind k = k == event_comment || k == event_review

-- isFirstContact
unfoldable pub is_first_contact : String → String → ℕ → Exec Db Bool
is_first_contact repo kind number = do
  n ←
      statement (
        count_observations (λ r. has_thread repo kind number r && is_translation_kind r.event_kind))
  pure (nat_eq n 0)

abbrev pub decide_emit : Bool → DerivedEvent → ℕ → Bool
decide_emit first ev baseline =
    if not first then true else ev.first_eligible && after ev.at baseline

abbrev pub new_observation : ThreadDetail → String → String → String → Observation
new_observation d event_kind event_key class = record {
  source = source_forge;
  repo = d.repo;
  artifact_kind = d.kind;
  artifact_number = d.number;
  notification_thread_id = "";
  event_kind = event_kind;
  event_key = event_key;
  event_class = class;
  source_query = "thread detail diff";
  payload_json = "{}";
}

abbrev on_thread : String → ThreadDetail → String
on_thread what d = append what (append d.kind (append " #" (format_int d.number)))

abbrev pub comment_event : ThreadDetail → CommentRef → DerivedEvent
comment_event d c = record {
  obs = new_observation d event_comment (format_int c.id) class_stable_id;
  at = c.updated_at;
  first_eligible = true;
  work_kind = work_inspect_new_comment;
  title = on_thread "New comment on " d;
}

abbrev pub review_event : ThreadDetail → ReviewRef → DerivedEvent
review_event d r = record {
  obs = new_observation d event_review (format_int r.id) class_stable_id;
  at = r.submitted_at;
  first_eligible = true;
  work_kind = work_inspect_new_review;
  title = on_thread "New review on " d;
}

-- deriveEvents
unfoldable pub derive_events : ThreadDetail → List DerivedEvent
derive_events d = map (comment_event d) d.comments ++ map (review_event d) d.reviews

-- currentState
unfoldable pub current_state : ThreadDetail → String
current_state d = if d.merged then "merged" else if d.state == "closed" then "closed" else "open"

insert_sorted : String → List String → List String
insert_sorted s [] = s ∷ []
insert_sorted s (t ∷ ts) = elim (compare s t) [
  | Ordering.gt ↦ t ∷ insert_sorted s ts
  | _ ↦ s ∷ t ∷ ts
]

-- sort.Strings
unfoldable pub sort_strings : List String → List String
unfolding insert_sorted
sort_strings [] = []
sort_strings (s ∷ ss) = insert_sorted s (sort_strings ss)

-- labelSetKey
unfoldable pub label_set_key : List LabelRef → String
label_set_key labels = join "," (sort_strings (map (λ (l : LabelRef). format_int l.id) labels))

abbrev pub emitted_item : String → String → EmittedWorkItem
emitted_item event_id kind = record {
  id = work_item_id event_id;
  kind = kind;
  source_id = event_id;
  event_id = event_id;
}

abbrev pub emit : String → String → TranslateResult → TranslateResult
emit event_id kind res = record res { emitted = res.emitted ++ emitted_item event_id kind ∷ [] }

-- What follows recordObservation in the loop over the derived events.
abbrev pub after_record : ℕ → DerivedEvent → TranslateResult → Bool → Bool → Exec Db TranslateResult
after_record scope_gen ev res emits inserted =
    if not inserted
    then pure (record res { suppressed = res.suppressed + 1 })
    else if not emits
    then pure (record res { seeded_seen = res.seeded_seen + 1 })
    else do
      create_work_item scope_gen (event_id ev.obs) ev.work_kind ev.title
      pure (emit (event_id ev.obs) ev.work_kind res)

-- The body of the loop over the derived events.
unfoldable pub translate_event :
    String → ℕ → Bool → ℕ → DerivedEvent → TranslateResult → Exec Db TranslateResult
translate_event run_id scope_gen first baseline ev res = do
  inserted ← record_observation run_id ev.obs
  after_record scope_gen ev res (decide_emit first ev baseline) inserted

unfoldable pub translate_events :
    String → ℕ → Bool → ℕ → List DerivedEvent → TranslateResult → Exec Db TranslateResult
translate_events run_id scope_gen first baseline [] res = pure res
translate_events run_id scope_gen first baseline (ev ∷ evs) res = do
  res' ← translate_event run_id scope_gen first baseline ev res
  translate_events run_id scope_gen first baseline evs res'

abbrev pub emit_if : Bool × String → TranslateResult → TranslateResult
emit_if (emitted, event_id) res = if emitted then emit event_id work_refresh_scope res else res

abbrev state_title : ThreadDetail → String
state_title d = append (on_thread "" d) (append " state changed to " (current_state d))

unfoldable pub observe_state : String → String → ℕ → ThreadDetail → Exec Db (Bool × String)
observe_state repo run_id scope_gen d =
    observe_scalar_change repo run_id d.kind d.number event_state_changed (current_state d)
      class_synthetic_id work_refresh_scope (state_title d) scope_gen

unfoldable pub observe_labels : String → String → ℕ → ThreadDetail → Exec Db (Bool × String)
observe_labels repo run_id scope_gen d =
    observe_scalar_change repo run_id d.kind d.number event_label_set (label_set_key d.labels)
      class_synthetic_id work_refresh_scope (append (on_thread "" d) " label set changed") scope_gen

abbrev pub baseline_of : Translator → ThreadRef → ℕ
baseline_of t ref = elim ref.baseline_at [ none ↦ t.wm.start | some b ↦ b ]

-- The two scalars of Translate: the state and the label set.
abbrev pub translate_labels :
    Translator
    → String
    → ℕ
    → ThreadDetail
    → TranslateResult
    → Bool × String
    → Exec Db TranslateResult
translate_labels t run_id scope_gen d res state = do
  labels ← observe_labels t.q.repo_slug run_id scope_gen d
  pure (emit_if labels (emit_if state res))

abbrev pub translate_scalars :
    Translator → String → ℕ → ThreadDetail → TranslateResult → Exec Db TranslateResult
translate_scalars t run_id scope_gen d res = do
  state ← observe_state t.q.repo_slug run_id scope_gen d
  translate_labels t run_id scope_gen d res state

-- Translate from the answer of isFirstContact on.
abbrev pub translate_first :
    Translator → String → ℕ → ThreadRef → ThreadDetail → Bool → Exec Db TranslateResult
translate_first t run_id scope_gen ref d first = do
  res ←
      translate_events run_id scope_gen first (baseline_of t ref) (derive_events d)
        (record { emitted = []; seeded_seen = 0; suppressed = 0; first_seen = first })
  translate_scalars t run_id scope_gen d res

-- Translate from the answer of FetchThreadDetail on.
unfoldable pub translate_detail :
    Translator → String → ℕ → ThreadRef → ThreadDetail → Exec Db TranslateResult
translate_detail t run_id scope_gen ref d = do
  first ← is_first_contact d.repo ref.kind ref.number
  translate_first t run_id scope_gen ref d first

-- Translator.Translate. The counts that it returns beside an error are left out.
unfoldable pub translate : Translator → String → ℕ → ThreadRef → Exec Db TranslateResult
translate t run_id scope_gen ref = do
  d ← lift (t.q.fetch_thread_detail ref.kind ref.number)
  translate_detail t run_id scope_gen ref d
