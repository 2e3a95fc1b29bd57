-- ===== src/Observe/NewEvent.antt =====
-- A new event of a thread becomes a work item.
use botfam.Base.{
  ℕ, ◌≡◌, refl, Bool, true, false, List, [], ◌∷◌, ◌++◌, String, ◌==◌, arith, ok, any, any-append,
  eq_refl,
}
use botfam.Sql.{statement}
use botfam.Store.{Db, ObservationRow, WorkItemRow}
use botfam.Observe.{Observation, event_id}
use botfam.Observe.Record.{
  record_observation, observation_row, valid_class, run_exists, create_work_item, work_item_row,
  same_item, transition_row,
}
use botfam.Observe.Translate.{DerivedEvent, TranslateResult, translate_event, decide_emit, emit}
use botfam.Observe.Ingest.{recorded}

abbrev with_observation : String → Observation → Db → Db
with_observation run_id o w = record w {
  tables = record w.tables {
    observations = w.tables.observations ++ observation_row run_id o w.env.now ∷ [];
  };
}

record_new :
    (run_id : String) (o : Observation) (w : Db)
    → valid_class o.event_class ≡ true
    → run_exists w.env w.tables run_id ≡ true
    → recorded o w.tables ≡ false
    → w.faults ≡ []
    → record_observation run_id o w ≡ (ok true, with_observation run_id o w)
unfolding record_observation statement
record_new run_id o w v r n f = ground arith

observation_there :
    (run_id : String) (o : Observation) (w : Db)
    → any
        (λ (r : ObservationRow). r.id == event_id o)
        (w.tables.observations ++ observation_row run_id o w.env.now ∷ [])
      ≡ true
unfolding any
observation_there run_id o w = ground (
  arith,
  any-append (λ (r : ObservationRow). r.id == event_id o) w.tables.observations
      (observation_row run_id o w.env.now ∷ []),
  eq_refl (event_id o),
)

abbrev with_item : WorkItemRow → Db → Db
with_item r w = record w {
  tables = record w.tables {
    work_items = w.tables.work_items ++ r ∷ [];
    transitions = w.tables.transitions ++ transition_row r.id w.env.now ∷ [];
  };
}

item_there :
    (r : WorkItemRow) (xs : List WorkItemRow)
    → any (λ (s : WorkItemRow). s.id == r.id) (xs ++ r ∷ []) ≡ true
unfolding any
item_there r xs =
    ground (arith, any-append (λ (s : WorkItemRow). s.id == r.id) xs (r ∷ []), eq_refl r.id)

create_new :
    (gen : ℕ) (id kind title : String) (w : Db)
    → any (λ (r : ObservationRow). r.id == id) w.tables.observations ≡ true
    → any (same_item (work_item_row id kind title gen w.env.now)) w.tables.work_items ≡ false
    → w.faults ≡ []
    → create_work_item gen id kind title w
      ≡ (ok tt, with_item (work_item_row id kind title gen w.env.now) w)
unfolding create_work_item statement
create_new gen id kind title w o n f =
    ground (arith, item_there (work_item_row id kind title gen w.env.now) w.tables.work_items)

-- An event that is not recorded and that decideEmit lets through is emitted, when its run exists, its
-- work item does not, and no engine error comes: a pending work item with its first transition is
-- added, and the result names it.
pub new_event_emitted :
    (run_id : String) (gen : ℕ) (first : Bool) (baseline : ℕ) (ev : DerivedEvent)
    (res : TranslateResult) (w : Db)
    → valid_class ev.obs.event_class ≡ true
    → run_exists w.env w.tables run_id ≡ true
    → recorded ev.obs w.tables ≡ false
    → any
        (same_item (work_item_row (event_id ev.obs) ev.work_kind ev.title gen w.env.now))
        w.tables.work_items
      ≡ false
    → w.faults ≡ []
    → decide_emit first ev baseline ≡ true
    → let row = work_item_row (event_id ev.obs) ev.work_kind ev.title gen w.env.now in
      let out = translate_event run_id gen first baseline ev res w in
      (out.0 ≡ ok (emit (event_id ev.obs) ev.work_kind res))
      × (out.1.tables.work_items ≡ w.tables.work_items ++ row ∷ [])
      × (out.1.tables.transitions ≡ w.tables.transitions ++ transition_row row.id w.env.now ∷ [])
unfolding translate_event
new_event_emitted run_id gen first baseline ev res w v r n i f d =
    let created =
      create_new gen (event_id ev.obs) ev.work_kind ev.title (with_observation run_id ev.obs w)
        (observation_there run_id ev.obs w) i f in
    rw (record_new run_id ev.obs w v r n f, d, created) (refl, refl, refl)
