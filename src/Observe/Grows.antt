-- ===== src/Observe/Grows.antt =====
-- What the writes of internal/eventdelivery/observe keep: each of them appends one row.
use botfam.Base.{
  ℕ, ◌≡◌, Bool, true, false, List, [], ◌∷◌, ◌++◌, String, arith, any, Bool-cases, inl, inr,
}
use botfam.Sql.{statement}
use botfam.Sql.Laws.{Keeps, Keeps-statement, Keeps-pure, Keeps-if, Keeps-bind}
use botfam.Store.{Tables, ObservationRow, WorkItemRow, TransitionRow}
use botfam.Observe.{Observation, event_id}
use botfam.Observe.Detail.{ThreadDetail}
use botfam.Observe.Record.{
  observation_row, same_event, same_item, insert_observation, record_observation, create_work_item,
  IngestResult, count_rows, ingest_from, work_item_row, transition_row, work_item_id,
}
use botfam.Observe.Scalar.{is_first_scalar, observe_scalar_change, count_observations}
use botfam.Observe.Translate.{
  Translator, ThreadRef, DerivedEvent, TranslateResult, is_first_contact, translate_event,
  translate_events, translate_detail, observe_state, observe_labels, decide_emit, after_record,
}

-- `P` goes through a new observation, a new work item with its observation, and a new transition.
pub record Grows (P : Tables → Type 0) : Type 0 where
  pub observation :
      (t : Tables) (r : ObservationRow)
      → any (same_event r) t.observations ≡ false
      → P t
      → P (record t { observations = t.observations ++ r ∷ [] })
  pub work_item :
      (t : Tables) (r : WorkItemRow)
      → any (same_item r) t.work_items ≡ false
      → P t
      → P (record t { work_items = t.work_items ++ r ∷ [] })
  pub transition :
      (t : Tables) (r : TransitionRow)
      → P t
      → P (record t { transitions = t.transitions ++ r ∷ [] })

module _ {P : Tables → Type 0} (g : Grows P) where
  pub insert_observation-Keeps :
      (run_id : String) (o : Observation)
      → Keeps P (statement λ env. insert_observation (observation_row run_id o env.now) env)
  insert_observation-Keeps run_id o = Keeps-statement _ λ env t a t' h q.
      elim (Bool-cases (any (same_event (observation_row run_id o env.now)) t.observations)) [
        | inl e ↦ ground (arith)
        | inr e ↦ let k = g.observation t (observation_row run_id o env.now) e h in ground (arith)
      ]

  pub record_observation-Keeps :
      (run_id : String) (o : Observation) → Keeps P (record_observation run_id o)
  unfolding record_observation
  record_observation-Keeps run_id o =
      Keeps-bind _ _ (insert_observation-Keeps run_id o) λ n. Keeps-pure _

  pub ingest_from-Keeps :
      (run_id : String) (res : IngestResult) (obs : List Observation)
      → Keeps P (ingest_from run_id res obs)
  unfolding ingest_from
  ingest_from-Keeps run_id res [] = Keeps-pure res
  ingest_from-Keeps run_id res (o ∷ obs) =
      Keeps-bind _ _ (insert_observation-Keeps run_id o)
        λ n. ingest_from-Keeps run_id (count_rows res n) obs

  pub create_work_item-Keeps :
      (gen : ℕ) (id kind title : String) → Keeps P (create_work_item gen id kind title)
  unfolding create_work_item
  create_work_item-Keeps gen id kind title =
      Keeps-bind _ _
        (Keeps-statement _ λ env t a t' h q.
          elim (Bool-cases
            (any (same_item (work_item_row id kind title gen env.now)) t.work_items)) [
              | inl e ↦ ground (arith)
              | inr e ↦
                  let k = g.work_item t (work_item_row id kind title gen env.now) e h in
                  ground (arith)
            ])
        λ n. Keeps-if _ _ _ (Keeps-pure tt) (
          Keeps-statement _ λ env t a t' h q.
            let k = g.transition t (transition_row (work_item_id id) env.now) h in
            ground (arith, k))

  count-Keeps : (p : ObservationRow → Bool) → Keeps P (statement (count_observations p))
  count-Keeps p = Keeps-statement _ λ env t a t' h q. ground (arith)

  pub observe_scalar_change-Keeps :
      (repo run_id kind : String) (number : ℕ) (event_kind value class work_kind title : String)
      (gen : ℕ)
      → Keeps P
          (observe_scalar_change repo run_id kind number event_kind value class work_kind title gen)
  unfolding observe_scalar_change is_first_scalar
  observe_scalar_change-Keeps repo run_id kind number event_kind value class work_kind title gen =
      Keeps-bind _ _ (Keeps-bind _ _ (count-Keeps _) λ n. Keeps-pure _) λ first.
        Keeps-bind _ _ (record_observation-Keeps run_id _) λ inserted.
          Keeps-if _ _ _ (Keeps-pure _)
            (Keeps-bind _ _ (create_work_item-Keeps gen _ work_kind title) λ _. Keeps-pure _)

  pub after_record-Keeps :
      (gen : ℕ) (ev : DerivedEvent) (res : TranslateResult) (emits inserted : Bool)
      → Keeps P (after_record gen ev res emits inserted)
  after_record-Keeps gen ev res emits false = Keeps-pure _
  after_record-Keeps gen ev res false true = Keeps-pure _
  after_record-Keeps gen ev res true true =
      Keeps-bind _ _ (create_work_item-Keeps gen (event_id ev.obs) ev.work_kind ev.title)
        λ _. Keeps-pure _

  pub translate_event-Keeps :
      (run_id : String) (gen : ℕ) (first : Bool) (baseline : ℕ) (ev : DerivedEvent)
      (res : TranslateResult)
      → Keeps P (translate_event run_id gen first baseline ev res)
  unfolding translate_event
  translate_event-Keeps run_id gen first baseline ev res =
      Keeps-bind _ _ (record_observation-Keeps run_id ev.obs)
        λ inserted. after_record-Keeps gen ev res (decide_emit first ev baseline) inserted

  pub translate_events-Keeps :
      (run_id : String) (gen : ℕ) (first : Bool) (baseline : ℕ) (evs : List DerivedEvent)
      (res : TranslateResult)
      → Keeps P (translate_events run_id gen first baseline evs res)
  unfolding translate_events
  translate_events-Keeps run_id gen first baseline [] res = Keeps-pure res
  translate_events-Keeps run_id gen first baseline (ev ∷ evs) res =
      Keeps-bind _ _ (translate_event-Keeps run_id gen first baseline ev res)
        λ res'. translate_events-Keeps run_id gen first baseline evs res'

  pub translate_detail-Keeps :
      (t : Translator) (run_id : String) (gen : ℕ) (ref : ThreadRef) (d : ThreadDetail)
      → Keeps P (translate_detail t run_id gen ref d)
  unfolding translate_detail is_first_contact observe_state observe_labels
  translate_detail-Keeps t run_id gen ref d =
      Keeps-bind _ _ (Keeps-bind _ _ (count-Keeps _) λ n. Keeps-pure _) λ first.
        Keeps-bind _ _ (translate_events-Keeps run_id gen first _ _ _) λ res.
          Keeps-bind _ _ (observe_scalar_change-Keeps _ _ _ _ _ _ _ _ _ _) λ state.
            Keeps-bind _ _ (observe_scalar_change-Keeps _ _ _ _ _ _ _ _ _ _) λ labels. Keeps-pure _
