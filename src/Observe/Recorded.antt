-- ===== src/Observe/Recorded.antt =====
-- A translation that reports no error has recorded every event of its thread.
use botfam.Base.{
  ℕ, ◌≡◌, refl, Bool, true, false, List, [], ◌∷◌, map, String, ok, err, Result, continue, Exec, All,
  All-append,
}
use botfam.Sql.Laws.{Keeps, Keeps-pure, Keeps-bind, continue-P}
use botfam.Store.{Tables, Db}
use botfam.Observe.{Observation, event_id, class_synthetic_id}
use botfam.Observe.Detail.{
  ThreadDetail, CommentRef, ReviewRef, event_state_changed, event_label_set,
}
use botfam.Observe.Record.{valid_class}
use botfam.Observe.Scalar.{observe_scalar_change, scalar_observation, after_scalar, scalar_first}
use botfam.Observe.Translate.{
  DerivedEvent, TranslateResult, translate_event, translate_events, decide_emit, after_record,
  derive_events, comment_event, review_event, current_state, label_set_key,
}
use botfam.Observe.Grows.{Grows, after_record-Keeps, create_work_item-Keeps, translate_events-Keeps}
use botfam.Observe.Ingest.{recorded, recorded-Grows}
use botfam.Observe.Once.{record_recorded}

abbrev pub EventsRecorded : List DerivedEvent → Tables → Type 0
EventsRecorded evs t = All (λ ev. recorded ev.obs t ≡ true) evs

abbrev pub HasValidClass : DerivedEvent → Type 0
HasValidClass ev = valid_class ev.obs.event_class ≡ true

-- The first stage of `m >>= f` answers when the whole does.
pub answer :
    {A B : Type 0} (r : Result A) (f : A → Exec Db B) (w : Db) (b : B)
    → (continue r f w).0 ≡ ok b
    → (a : A) × (r ≡ ok a)
answer (ok a) f w b q = (a, refl)
answer (err e) f w b q = cc

event_recorded :
    (run_id : String) (gen : ℕ) (first : Bool) (baseline : ℕ) (ev : DerivedEvent)
    (res : TranslateResult) (w : Db) (out : TranslateResult)
    → HasValidClass ev
    → (translate_event run_id gen first baseline ev res w).0 ≡ ok out
    → recorded ev.obs (translate_event run_id gen first baseline ev res w).1.tables ≡ true
unfolding translate_event
event_recorded run_id gen first baseline ev res w out v q =
    let f = after_record gen ev res (decide_emit first ev baseline) in
    let (b, e) = answer _ f _ out q in
    continue-P f _ _ (record_recorded run_id ev.obs w b v e)
      (after_record-Keeps (recorded-Grows ev.obs) gen ev res (decide_emit first ev baseline))

continue-recorded :
    (run_id : String) (gen : ℕ) (first : Bool) (baseline : ℕ) (ev : DerivedEvent)
    (evs : List DerivedEvent) (w' : Db) (out : TranslateResult)
    → ((res : TranslateResult) (w : Db)
        → (translate_events run_id gen first baseline evs res w).0 ≡ ok out
        → EventsRecorded evs (translate_events run_id gen first baseline evs res w).1.tables)
    → (r : Result TranslateResult)
    → ((res : TranslateResult) → r ≡ ok res → recorded ev.obs w'.tables ≡ true)
    → (continue r (translate_events run_id gen first baseline evs) w').0 ≡ ok out
    → EventsRecorded
        (ev ∷ evs)
        (continue r (translate_events run_id gen first baseline evs) w').1.tables
continue-recorded run_id gen first baseline ev evs w' out rest (ok res) h q = (
  (translate_events-Keeps (recorded-Grows ev.obs) run_id gen first baseline evs res).at w'
      (h res refl),
  rest res w' q,
)
continue-recorded run_id gen first baseline ev evs w' out rest (err e) h q = cc

pub events_recorded :
    (run_id : String) (gen : ℕ) (first : Bool) (baseline : ℕ) (evs : List DerivedEvent)
    (res : TranslateResult) (w : Db) (out : TranslateResult)
    → All HasValidClass evs
    → (translate_events run_id gen first baseline evs res w).0 ≡ ok out
    → EventsRecorded evs (translate_events run_id gen first baseline evs res w).1.tables
unfolding translate_events
events_recorded run_id gen first baseline [] res w out v q = tt
events_recorded run_id gen first baseline (ev ∷ evs) res w out v q =
    continue-recorded run_id gen first baseline ev evs _ out
      (λ res w q. events_recorded run_id gen first baseline evs res w out v.1 q) _
      (λ res' e. event_recorded run_id gen first baseline ev res w res' v.0 e) q

comments_valid :
    (d : ThreadDetail) (cs : List CommentRef) → All HasValidClass (map (comment_event d) cs)
comments_valid d [] = tt
comments_valid d (c ∷ cs) = (refl, comments_valid d cs)

reviews_valid :
    (d : ThreadDetail) (rs : List ReviewRef) → All HasValidClass (map (review_event d) rs)
reviews_valid d [] = tt
reviews_valid d (r ∷ rs) = (refl, reviews_valid d rs)

pub derive_events-valid : (d : ThreadDetail) → All HasValidClass (derive_events d)
unfolding derive_events
derive_events-valid d =
    All-append HasValidClass (map (comment_event d) d.comments) _ (comments_valid d d.comments)
      (reviews_valid d d.reviews)

after_scalar-Keeps :
    {P : Tables → Type 0} (g : Grows P) (gen : ℕ) (id kind title : String) (first inserted : Bool)
    → Keeps P (after_scalar gen id kind title first inserted)
after_scalar-Keeps g gen id kind title true inserted = Keeps-pure _
after_scalar-Keeps g gen id kind title false false = Keeps-pure _
after_scalar-Keeps g gen id kind title false true =
    Keeps-bind _ _ (create_work_item-Keeps g gen id kind title) λ _. Keeps-pure _

first_recorded :
    (run_id : String) (o : Observation) (gen : ℕ) (kind title : String) (w : Db) (r : Result Bool)
    (out : Bool × String)
    → valid_class o.event_class ≡ true
    → (continue r (scalar_first run_id o gen kind title) w).0 ≡ ok out
    → recorded o (continue r (scalar_first run_id o gen kind title) w).1.tables ≡ true
first_recorded run_id o gen kind title w (ok first) out v q =
    let (b, e) = answer _ (after_scalar gen (event_id o) kind title first) _ out q in
    continue-P (after_scalar gen (event_id o) kind title first) _ _
      (record_recorded run_id o w b v e)
      (after_scalar-Keeps (recorded-Grows o) gen (event_id o) kind title first)
first_recorded run_id o gen kind title w (err e) out v q = cc

pub scalar_recorded :
    (repo run_id kind : String) (number : ℕ) (event_kind value class work_kind title : String)
    (gen : ℕ) (w : Db) (out : Bool × String)
    → valid_class class ≡ true
    → (observe_scalar_change repo run_id kind number event_kind value class work_kind title gen w).0
      ≡ ok out
    → recorded
        (scalar_observation repo kind number event_kind value class)
        (observe_scalar_change repo run_id kind number event_kind value class work_kind title gen
          w).1.tables
      ≡ true
unfolding observe_scalar_change
scalar_recorded repo run_id kind number event_kind value class work_kind title gen w out v q =
    first_recorded run_id (scalar_observation repo kind number event_kind value class) gen work_kind
      title _ _ out v q

abbrev pub state_observation : String → ThreadDetail → Observation
state_observation repo d =
    scalar_observation repo d.kind d.number event_state_changed (current_state d) class_synthetic_id

abbrev pub labels_observation : String → ThreadDetail → Observation
labels_observation repo d =
    scalar_observation repo d.kind d.number event_label_set (label_set_key d.labels)
      class_synthetic_id

-- Everything of the thread is recorded.
pub record IsTranslated (repo : String) (d : ThreadDetail) (t : Tables) : Type 0 where
  pub events : EventsRecorded (derive_events d) t
  pub state : recorded (state_observation repo d) t ≡ true
  pub labels : recorded (labels_observation repo d) t ≡ true
