-- ===== src/Observe/Once.antt =====
-- No event of internal/eventdelivery/observe is dispatched twice.
use Prim.Native.String.{◌++◌ as append}
use botfam.Base.{
  ℕ, ◌+◌, ◌≡◌, ◌≢◌, refl, ◌∙◌, Bool, true, false, ◌&&◌, List, String, ◌==◌, arith, nat_eq, ok, err,
  Result, Bool-cases, inl, inr, continue, pure,
}
use botfam.Base.Text.{format_int}
use botfam.Sql.{statement}
use botfam.Sql.Laws.{continue-P}
use botfam.Store.{Db, ObservationRow}
use botfam.Observe.{Observation, event_id, kind_pull, event_push, class_stable_id}
use botfam.Observe.Detail.{DetailQuerier, work_rebuild_pr}
use botfam.Observe.Record.{record_observation, insert_observation, observation_row, valid_class}
use botfam.Observe.Scalar.{
  observe_scalar_change, poll_head_sha, is_first_scalar, count_observations, scalar_observation,
  after_scalar, scalar_first, has_thread,
}
use botfam.Observe.Translate.{
  DerivedEvent, TranslateResult, translate_event, decide_emit, after_record,
}
use botfam.Observe.Grows.{after_record-Keeps}
use botfam.Observe.Ingest.{recorded, recorded-Grows, insert_recorded, insert_again}
use botfam.Observe.Calls.{Call, run, run_keeps}

number_result :
    (r : Result ℕ) (w : Db) (b : Bool)
    → (continue r (λ n. pure (nat_eq n 1)) w).0 ≡ ok b
    → (n : ℕ) × (r ≡ ok n)
number_result (ok n) w b q = (n, refl)
number_result (err e) w b q = cc

pub same_world :
    {A B : Type 0} (r : Result A) (f : A → B) (w : Db) → (continue r (λ a. pure (f a)) w).1 ≡ w
same_world (ok a) f w = refl
same_world (err e) f w = refl

-- Recording an observation without an error leaves it recorded.
pub record_recorded :
    (run_id : String) (o : Observation) (w : Db) (b : Bool)
    → valid_class o.event_class ≡ true
    → (record_observation run_id o w).0 ≡ ok b
    → recorded o (record_observation run_id o w).1.tables ≡ true
unfolding record_observation
record_recorded run_id o w b v q =
    let (n, e) = number_result _ _ b q in
    rw
      (same_world (statement (λ env. insert_observation (observation_row run_id o env.now) env) w).0
        (λ n. nat_eq n 1) _)
      (insert_recorded run_id o w n v e)

zero_result :
    (r : Result ℕ) (w : Db) (b : Bool)
    → ((n : ℕ) → r ≡ ok n → n ≡ 0)
    → (continue r (λ n. pure (nat_eq n 1)) w).0 ≡ ok b
    → b ≡ false
zero_result (ok n) w b z q = let n0 = z n refl in ground arith
zero_result (err e) w b z q = cc

-- A recorded observation is not recorded again.
pub record_again :
    (run_id : String) (o : Observation) (w : Db)
    → recorded o w.tables ≡ true
    → ((b : Bool) → (record_observation run_id o w).0 ≡ ok b → b ≡ false)
      × ((record_observation run_id o w).1.tables ≡ w.tables)
unfolding record_observation
record_again run_id o w h =
    let again = insert_again run_id o w h in
    (
      λ b q. zero_result _ _ b again.0 q,
      rw
          (same_world
            (statement (λ env. insert_observation (observation_row run_id o env.now) env) w).0
            (λ n. nat_eq n 1) _)
          again.1,
    )

pub record IsSuppressed (res : TranslateResult) (w : Db) (out : Result TranslateResult × Db)
    : Type 0 where
  pub same_tables : out.1.tables ≡ w.tables
  pub answer :
      (res' : TranslateResult)
      → out.0 ≡ ok res'
      → res' ≡ record res { suppressed = res.suppressed + 1 }

suppress :
    (gen : ℕ) (ev : DerivedEvent) (res : TranslateResult) (emits : Bool) (w w' : Db)
    (r : Result Bool)
    → ((b : Bool) → r ≡ ok b → b ≡ false)
    → w'.tables ≡ w.tables
    → IsSuppressed res w (continue r (after_record gen ev res emits) w')
suppress gen ev res emits w w' (ok true) n t = absurd (ground (arith, n true refl))
suppress gen ev res emits w w' (ok false) n t = record { same_tables = t; answer = λ res' q. cc }
suppress gen ev res emits w w' (err e) n t = record { same_tables = t; answer = λ res' q. cc }

pub event_again :
    (run_id : String) (gen : ℕ) (first : Bool) (baseline : ℕ) (ev : DerivedEvent)
    (res : TranslateResult) (w : Db)
    → recorded ev.obs w.tables ≡ true
    → IsSuppressed res w (translate_event run_id gen first baseline ev res w)
unfolding translate_event
event_again run_id gen first baseline ev res w h =
    let again = record_again run_id ev.obs w h in
    suppress gen ev res (decide_emit first ev baseline) w _ _ again.0 again.1

-- Once the observation of an event has been recorded by its translation, then whatever that translation
-- answers in the end and after any further calls, translating the event again writes nothing, and if
-- it reports no error the event is suppressed.
pub event_emitted_once :
    (run_id : String) (gen : ℕ) (first : Bool) (baseline : ℕ) (ev : DerivedEvent)
    (res : TranslateResult) (w : Db) (b : Bool) (cs : List Call) (run_id' : String) (gen' : ℕ)
    (first' : Bool) (baseline' : ℕ) (res' : TranslateResult)
    → valid_class ev.obs.event_class ≡ true
    → (record_observation run_id ev.obs w).0 ≡ ok b
    → let later = run cs (translate_event run_id gen first baseline ev res w).1 in
      let out = translate_event run_id' gen' first' baseline' ev res' later in
      (out.1.tables ≡ later.tables)
      × ((again : TranslateResult)
          → out.0 ≡ ok again
          → again ≡ record res' { suppressed = res'.suppressed + 1 })
unfolding translate_event
event_emitted_once run_id gen first baseline ev res w b cs run_id' gen' first' baseline' res' v q =
    let g = recorded-Grows ev.obs in
    let there =
      continue-P (after_record gen ev res (decide_emit first ev baseline)) _ _
        (record_recorded run_id ev.obs w b v q)
        (after_record-Keeps g gen ev res (decide_emit first ev baseline)) in
    let s = event_again run_id' gen' first' baseline' ev res' _ (run_keeps g cs _ there) in
    (s.same_tables, s.answer)

abbrev head_observation : DetailQuerier → ℕ → String → Observation
head_observation q number sha =
    scalar_observation q.repo_slug kind_pull number event_push sha class_stable_id

record IsStill {A : Type 0} (w : Db) (out : Result (Bool × A) × Db) : Type 0 where
  same_tables : out.1.tables ≡ w.tables
  quiet : (b : Bool) (a : A) → out.0 ≡ ok (b, a) → b ≡ false

scalar-IsStill :
    (gen : ℕ) (id kind title : String) (first : Bool) (w w' : Db) (r : Result Bool)
    → ((b : Bool) → r ≡ ok b → b ≡ false)
    → w'.tables ≡ w.tables
    → IsStill w (continue r (after_scalar gen id kind title first) w')
scalar-IsStill gen id kind title first w w' (ok true) n t = absurd (ground (arith, n true refl))
scalar-IsStill gen id kind title true w w' (ok false) n t = record {
  same_tables = t;
  quiet = λ b a q. cc;
}
scalar-IsStill gen id kind title false w w' (ok false) n t = record {
  same_tables = t;
  quiet = λ b a q. cc;
}
scalar-IsStill gen id kind title first w w' (err e) n t = record {
  same_tables = t;
  quiet = λ b a q. cc;
}

first-IsStill :
    (run_id : String) (o : Observation) (gen : ℕ) (kind title : String) (w w' : Db)
    (r : Result Bool)
    → recorded o w.tables ≡ true
    → w'.tables ≡ w.tables
    → IsStill w (continue r (scalar_first run_id o gen kind title) w')
first-IsStill run_id o gen kind title w w' (ok first) h t =
    let again = record_again run_id o w' (rw t h) in
    let s = scalar-IsStill gen (event_id o) kind title first w' _ _ again.0 again.1 in
    record { same_tables = s.same_tables ∙ t; quiet = s.quiet }
first-IsStill run_id o gen kind title w w' (err e) h t = record {
  same_tables = t;
  quiet = λ b a q. cc;
}

pub count_tables :
    (p : ObservationRow → Bool) (w : Db) → (statement (count_observations p) w).1.tables ≡ w.tables
unfolding statement
count_tables p w = ground arith

-- A scalar whose value is recorded: nothing is written, and no work item is reported.
pub scalar_again :
    (repo run_id kind : String) (number : ℕ) (event_kind value class work_kind title : String)
    (gen : ℕ) (w : Db)
    → recorded (scalar_observation repo kind number event_kind value class) w.tables ≡ true
    → let out =
        observe_scalar_change repo run_id kind number event_kind value class work_kind title gen
          w in
      (out.1.tables ≡ w.tables) × ((b : Bool) (id : String) → out.0 ≡ ok (b, id) → b ≡ false)
unfolding observe_scalar_change is_first_scalar
scalar_again repo run_id kind number event_kind value class work_kind title gen w h =
    let s =
      first-IsStill run_id (scalar_observation repo kind number event_kind value class) gen
        work_kind title w _ _ h
        (rw
          (same_world
            (statement
              (count_observations
                (λ r. has_thread repo kind number r && r.event_kind == event_kind))
              w).0
            (λ n. nat_eq n 0) _)
          (count_tables _ w)) in
    (s.same_tables, s.quiet)

flag_only :
    (w w' : Db) (r : Result (Bool × String))
    → ((b : Bool) (id : String) → r ≡ ok (b, id) → b ≡ false)
    → (continue r (λ out. pure (out.0)) w').0 ≢ ok true
flag_only w w' (ok (b, id)) n q = let f = n b id refl in ground arith
flag_only w w' (err e) n q = cc

-- A head SHA that is recorded for a pull request is never reported as a change again, after any calls,
-- also when another SHA was the head in between, and polling it writes nothing.
pub head_polled_once :
    (q : DetailQuerier) (run_id : String) (number : ℕ) (sha : String) (gen : ℕ) (w : Db)
    (cs : List Call)
    → recorded (head_observation q number sha) w.tables ≡ true
    → let out = poll_head_sha q run_id number sha gen (run cs w) in
      (out.1.tables ≡ (run cs w).tables) × (out.0 ≢ ok true)
unfolding poll_head_sha
head_polled_once q run_id number sha gen w cs h =
    let s =
      scalar_again q.repo_slug run_id kind_pull number event_push sha class_stable_id
        work_rebuild_pr (append "Head SHA changed on pull #" (format_int number)) gen (run cs w)
        (run_keeps (recorded-Grows (head_observation q number sha)) cs w h) in
    elim (Bool-cases (sha == "")) [
      | inl e ↦ rw e (refl, λ p. cc)
      | inr e ↦ rw e (
        rw
            (same_world
              (observe_scalar_change q.repo_slug run_id kind_pull number event_push sha
                class_stable_id work_rebuild_pr
                (append "Head SHA changed on pull #" (format_int number)) gen (run cs w)).0
              (λ (out : Bool × String). out.0) _)
            s.0,
        flag_only w _ _ s.1,
      )
    ]
