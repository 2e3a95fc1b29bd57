-- ===== src/Observe/Again.antt =====
-- Translating a thread a second time dispatches nothing.
use botfam.Base.{
  ℕ, ◌+◌, ◌≡◌, refl, ◌∙◌, Bool, true, false, ◌&&◌, List, [], ◌∷◌, map, String, arith, nat_eq, ok,
  err, Result, continue, pure, length, length-append,
}
use botfam.Sql.{statement}
use botfam.Store.{Db}
use botfam.Observe.Detail.{ThreadDetail}
use botfam.Observe.Scalar.{count_observations, has_thread}
use botfam.Observe.Translate.{
  Translator, ThreadRef, DerivedEvent, TranslateResult, translate_event, translate_events,
  translate_detail, translate, derive_events, comment_event, review_event, observe_state,
  observe_labels, emit_if, is_first_contact, translate_labels, translate_scalars, translate_first,
  baseline_of, is_translation_kind,
}
use botfam.Observe.Grows.{Grows, observe_scalar_change-Keeps}
use botfam.Observe.Ingest.{recorded, recorded-Grows}
use botfam.Observe.Once.{same_world, scalar_again, event_again, count_tables, IsSuppressed}
use botfam.Observe.Recorded.{
  EventsRecorded, IsTranslated, events_recorded, derive_events-valid, scalar_recorded,
  state_observation, answer,
}

events-Grows : (evs : List DerivedEvent) → Grows (EventsRecorded evs)
events-Grows [] = record {
  observation = λ _ _ _ _. tt;
  work_item = λ _ _ _ _. tt;
  transition = λ _ _ _. tt;
}
events-Grows (ev ∷ evs) =
    let g = recorded-Grows ev.obs in
    let gs = events-Grows evs in
    record {
      observation = λ t r n h. (g.observation t r n h.0, gs.observation t r n h.1);
      work_item = λ t r n h. (g.work_item t r n h.0, gs.work_item t r n h.1);
      transition = λ t r h. (g.transition t r h.0, gs.transition t r h.1);
    }

module _ (t : Translator) (run_id : String) (gen : ℕ) (d : ThreadDetail) where
  labels-IsTranslated :
      (res : TranslateResult) (w : Db) (state : Bool × String) (out : TranslateResult)
      → EventsRecorded (derive_events d) w.tables
      → recorded (state_observation t.q.repo_slug d) w.tables ≡ true
      → (translate_labels t run_id gen d res state w).0 ≡ ok out
      → IsTranslated t.q.repo_slug d (translate_labels t run_id gen d res state w).1.tables
  unfolding observe_labels
  labels-IsTranslated res w state out h s q =
      let (l, e) = answer (observe_labels t.q.repo_slug run_id gen d w).0 _ _ out q in
      rw
        (same_world (observe_labels t.q.repo_slug run_id gen d w).0
          (λ labels. emit_if labels (emit_if state res)) _)
        (record {
          events =
              (observe_scalar_change-Keeps (events-Grows (derive_events d)) _ _ _ _ _ _ _ _ _ _).at
                w h;
          state =
              (observe_scalar_change-Keeps (recorded-Grows (state_observation t.q.repo_slug d)) _ _
                  _ _ _ _ _ _ _ _).at
                w s;
          labels = scalar_recorded _ _ _ _ _ _ _ _ _ _ w l refl e;
        })

  state-IsTranslated :
      (res : TranslateResult) (w w' : Db) (r : Result (Bool × String)) (out : TranslateResult)
      → EventsRecorded (derive_events d) w'.tables
      → ((a : Bool × String)
          → r ≡ ok a
          → recorded (state_observation t.q.repo_slug d) w'.tables ≡ true)
      → (continue r (translate_labels t run_id gen d res) w').0 ≡ ok out
      → IsTranslated t.q.repo_slug d (continue r (translate_labels t run_id gen d res) w').1.tables
  state-IsTranslated res w w' (ok state) out h s q =
      labels-IsTranslated res w' state out h (s state refl) q
  state-IsTranslated res w w' (err e) out h s q = cc

  events-IsTranslated :
      (r : Result TranslateResult) (w : Db) (out : TranslateResult)
      → ((res : TranslateResult) → r ≡ ok res → EventsRecorded (derive_events d) w.tables)
      → (continue r (translate_scalars t run_id gen d) w).0 ≡ ok out
      → IsTranslated t.q.repo_slug d (continue r (translate_scalars t run_id gen d) w).1.tables
  unfolding observe_state
  events-IsTranslated (ok res) w out h q =
      state-IsTranslated res w _ _ out
        ((observe_scalar_change-Keeps (events-Grows (derive_events d)) _ _ _ _ _ _ _ _ _ _).at w
          (h res refl))
        (λ a e. scalar_recorded _ _ _ _ _ _ _ _ _ _ w a refl e) q
  events-IsTranslated (err e) w out h q = cc

  first-IsTranslated :
      (ref : ThreadRef) (r : Result Bool) (w : Db) (out : TranslateResult)
      → (continue r (translate_first t run_id gen ref d) w).0 ≡ ok out
      → IsTranslated t.q.repo_slug d (continue r (translate_first t run_id gen ref d) w).1.tables
  first-IsTranslated ref (ok first) w out q =
      events-IsTranslated _ _ out
        (λ res e.
          events_recorded run_id gen first (baseline_of t ref) (derive_events d) _ w res
            (derive_events-valid d) e)
        q
  first-IsTranslated ref (err e) w out q = cc

-- The second time: the events.
record IsSkipped (evs : List DerivedEvent) (res : TranslateResult) (w : Db)
    (out : Result TranslateResult × Db) : Type 0 where
  same_tables : out.1.tables ≡ w.tables
  answers :
      (res' : TranslateResult)
      → out.0 ≡ ok res'
      → res' ≡ record res { suppressed = res.suppressed + length evs }

module _ (run_id : String) (gen : ℕ) (first : Bool) (baseline : ℕ) where
  continue-IsSkipped :
      (ev : DerivedEvent) (evs : List DerivedEvent) (res : TranslateResult) (w w' : Db)
      → ((res : TranslateResult)
          → IsSkipped evs res w' (translate_events run_id gen first baseline evs res w'))
      → (r : Result TranslateResult) → IsSuppressed res w (r, w')
      → IsSkipped (ev ∷ evs) res w (continue r (translate_events run_id gen first baseline evs) w')
  continue-IsSkipped ev evs res w w' rest (ok res') s =
      let k = rest res' in
      let e = s.answer res' refl in
      record {
        same_tables = k.same_tables ∙ s.same_tables;
        answers = λ res'' q. ground (arith, k.answers res'' q);
      }
  continue-IsSkipped ev evs res w w' rest (err e) s = record {
    same_tables = s.same_tables;
    answers = λ res' q. cc;
  }

  events-IsSkipped :
      (evs : List DerivedEvent) (res : TranslateResult) (w : Db)
      → EventsRecorded evs w.tables
      → IsSkipped evs res w (translate_events run_id gen first baseline evs res w)
  unfolding translate_events
  events-IsSkipped [] res w h = record { same_tables = refl; answers = λ res' q. ground arith }
  events-IsSkipped (ev ∷ evs) res w h =
      let s = event_again run_id gen first baseline ev res w h.0 in
      continue-IsSkipped ev evs res w _
        (λ res'.
          events-IsSkipped evs res' (translate_event run_id gen first baseline ev res w).1
            (rw s.same_tables h.1))
        _ s

-- The second time: everything.
record IsUnchanged (res : TranslateResult) (w : Db) (out : Result TranslateResult × Db)
    : Type 0 where
  same_tables : out.1.tables ≡ w.tables
  answers : (res' : TranslateResult) → out.0 ≡ ok res' → res' ≡ res

module _ (t : Translator) (run_id : String) (gen : ℕ) (d : ThreadDetail) where
  labels-IsUnchanged :
      (res : TranslateResult) (state : Bool × String) (w w' : Db) (r : Result (Bool × String))
      → state.0 ≡ false
      → w'.tables ≡ w.tables
      → ((b : Bool) (id : String) → r ≡ ok (b, id) → b ≡ false)
      → IsUnchanged res w (continue r (λ labels. pure (emit_if labels (emit_if state res))) w')
  labels-IsUnchanged res state w w' (ok (b, id)) s e q =
      let f = q b id refl in record { same_tables = e; answers = λ res' k. ground arith }
  labels-IsUnchanged res state w w' (err er) s e q = record {
    same_tables = e;
    answers = λ res' k. cc;
  }

  state-IsUnchanged :
      (res : TranslateResult) (w w' : Db) (r : Result (Bool × String))
      → IsTranslated t.q.repo_slug d w.tables
      → w'.tables ≡ w.tables
      → ((b : Bool) (id : String) → r ≡ ok (b, id) → b ≡ false)
      → IsUnchanged res w (continue r (translate_labels t run_id gen d res) w')
  unfolding observe_labels
  state-IsUnchanged res w w' (ok (b, id)) h e q =
      let s = scalar_again _ run_id _ _ _ _ _ _ _ gen w' (rw e h.labels) in
      labels-IsUnchanged res (b, id) w _ _ (q b id refl) (s.0 ∙ e) s.1
  state-IsUnchanged res w w' (err er) h e q = record { same_tables = e; answers = λ res' k. cc }

  scalars-IsUnchanged :
      (res : TranslateResult) (w : Db)
      → IsTranslated t.q.repo_slug d w.tables
      → IsUnchanged res w (translate_scalars t run_id gen d res w)
  unfolding observe_state
  scalars-IsUnchanged res w h =
      let s = scalar_again _ run_id _ _ _ _ _ _ _ gen w h.state in
      state-IsUnchanged res w _ _ h s.0 s.1

-- An answer of a translation that creates no work item and seeds nothing.
record IsQuiet (n : ℕ) (w : Db) (out : Result TranslateResult × Db) : Type 0 where
  same_tables : out.1.tables ≡ w.tables
  answers :
      (res : TranslateResult)
      → out.0 ≡ ok res
      → (res.emitted ≡ []) × (res.seeded_seen ≡ 0) × (res.suppressed ≡ n)

module _ (t : Translator) (run_id : String) (gen : ℕ) (ref : ThreadRef) (d : ThreadDetail) where
  scalars-IsQuiet :
      (first : Bool) (w w' : Db) (r : Result TranslateResult)
      → IsTranslated t.q.repo_slug d w.tables
      → IsSkipped
          (derive_events d)
          (record { emitted = []; seeded_seen = 0; suppressed = 0; first_seen = first })
          w
          (r, w')
      → IsQuiet (length (derive_events d)) w (continue r (translate_scalars t run_id gen d) w')
  scalars-IsQuiet first w w' (ok res) h s =
      let u = scalars-IsUnchanged t run_id gen d res w' (rw s.same_tables h) in
      record {
        same_tables = u.same_tables ∙ s.same_tables;
        answers = λ res' q.
            let e = u.answers res' q in
            let k = s.answers res refl in (ground arith, ground arith, ground arith);
      }
  scalars-IsQuiet first w w' (err er) h s = record {
    same_tables = s.same_tables;
    answers = λ res' q. cc;
  }

  first-IsQuiet :
      (w w' : Db) (r : Result Bool)
      → IsTranslated t.q.repo_slug d w.tables
      → w'.tables ≡ w.tables
      → IsQuiet (length (derive_events d)) w (continue r (translate_first t run_id gen ref d) w')
  first-IsQuiet w w' (ok first) h e =
      let q = scalars-IsQuiet first w' _ _ (rw e h) (
        events-IsSkipped run_id gen first (baseline_of t ref) (derive_events d) _ w'
          (rw e h.events)) in
      record { same_tables = q.same_tables ∙ e; answers = q.answers }
  first-IsQuiet w w' (err er) h e = record { same_tables = e; answers = λ res' q. cc }

  detail-IsQuiet :
      (w : Db)
      → IsTranslated t.q.repo_slug d w.tables
      → IsQuiet (length (derive_events d)) w (translate_detail t run_id gen ref d w)
  unfolding translate_detail is_first_contact
  detail-IsQuiet w h = first-IsQuiet w _ _ h (
      rw
        (same_world
          (statement
            (count_observations
              (λ r. has_thread d.repo ref.kind ref.number r && is_translation_kind r.event_kind))
            w).0
          (λ n. nat_eq n 0) _)
        (count_tables _ w))

length-map : {A B : Type 0} (f : A → B) (xs : List A) → length (map f xs) ≡ length xs
length-map f [] = refl
length-map f (x ∷ xs) = ground (arith, length-map f xs)

derive_events-length :
    (d : ThreadDetail) → length (derive_events d) ≡ length d.comments + length d.reviews
unfolding derive_events
derive_events-length d = ground (
  arith,
  length-append (map (comment_event d) d.comments) (map (review_event d) d.reviews),
  length-map (comment_event d) d.comments,
  length-map (review_event d) d.reviews,
)

-- When a thread has been translated without an error and the forge shows the same detail again, a second
-- translation writes nothing, and if it reports no error it emits nothing, seeds nothing and
-- suppresses each comment and each review.
pub translate_again :
    (t : Translator) (run_id : String) (gen : ℕ) (ref : ThreadRef) (d : ThreadDetail) (w : Db)
    (res : TranslateResult) (run_id' : String) (gen' : ℕ)
    → t.q.fetch_thread_detail ref.kind ref.number ≡ ok d
    → (translate t run_id gen ref w).0 ≡ ok res
    → let later = (translate t run_id gen ref w).1 in
      let out = translate t run_id' gen' ref later in
      (out.1.tables ≡ later.tables)
      × ((res' : TranslateResult)
          → out.0 ≡ ok res'
          → (res'.emitted ≡ [])
            × (res'.seeded_seen ≡ 0)
            × (res'.suppressed ≡ length d.comments + length d.reviews))
unfolding translate translate_detail
translate_again t run_id gen ref d w res run_id' gen' f q =
    let done : IsTranslated t.q.repo_slug d (translate_detail t run_id gen ref d w).1.tables =
      first-IsTranslated t run_id gen d ref _ _ res (rw f at q) in
    let k = detail-IsQuiet t run_id' gen' ref d (translate_detail t run_id gen ref d w).1 done in
    rw f (k.same_tables, λ res' p. rw (← derive_events-length d) (k.answers res' p))
