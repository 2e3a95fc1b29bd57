-- ===== src/Observe/FirstContact.antt =====
-- The first translation of a thread does not dispatch its history.
use botfam.Base.{
  ℕ, ◌≡◌, refl, ◌∙◌, Bool, true, false, List, [], ◌∷◌, String, arith, ok, err, Result, All, Option,
  none, some, ◌≤◌, Bool-cases, inl, inr, All-append, continue, pure,
}
use botfam.Store.{Db}
use botfam.Observe.Detail.{ThreadDetail, after, work_refresh_scope}
use botfam.Observe.Translate.{
  Translator, ThreadRef, DerivedEvent, EmittedWorkItem, TranslateResult, translate_event,
  translate_events, decide_emit, after_record, derive_events, baseline_of, translate_detail,
  translate, is_first_contact, translate_first, translate_scalars, translate_labels, emit_if,
  emitted_item,
}

abbrev IsScalarItem : EmittedWorkItem → Type 0
IsScalarItem e = e.kind ≡ work_refresh_scope

-- A result of the first translation keeps to the scalars and says that it is the first.
record IsSeeded (first : Bool) (res : TranslateResult) : Type 0 where
  scalars : All IsScalarItem res.emitted
  same_first : res.first_seen ≡ first

-- The event has no time after the baseline: its time is missing or at most the baseline.
abbrev pub IsOld : ℕ → DerivedEvent → Type 0
IsOld baseline ev = (t : ℕ) → ev.at ≡ some t → t ≤ baseline

-- The gate holds back what is old.
after-old :
    (o : Option ℕ) (baseline : ℕ) → ((t : ℕ) → o ≡ some t → t ≤ baseline) → after o baseline ≡ false
after-old none baseline h = refl
after-old (some t) baseline h = let l = h t refl in ground (arith, l)

decide_emit-old :
    (ev : DerivedEvent) (baseline : ℕ) → IsOld baseline ev → decide_emit true ev baseline ≡ false
decide_emit-old ev baseline h =
    let a = after-old ev.at baseline h in
    elim (Bool-cases ev.first_eligible) [ inl e ↦ rw (e, a) refl | inr e ↦ rw e refl ]

same-IsSeeded :
    {first : Bool} (res out : TranslateResult)
    → IsSeeded first res
    → out.emitted ≡ res.emitted
    → out.first_seen ≡ res.first_seen
    → IsSeeded first out
same-IsSeeded res out s e f = record { scalars = rw e s.scalars; same_first = f ∙ s.same_first }

after_record_seeds :
    (gen : ℕ) (ev : DerivedEvent) (res : TranslateResult) (r : Result Bool) (w : Db)
    (out : TranslateResult)
    → IsSeeded true res
    → (continue r (after_record gen ev res false) w).0 ≡ ok out
    → IsSeeded true out
after_record_seeds gen ev res (ok true) w out s q =
    same-IsSeeded _ _ s (ground arith) (ground arith)
after_record_seeds gen ev res (ok false) w out s q =
    same-IsSeeded _ _ s (ground arith) (ground arith)
after_record_seeds gen ev res (err e) w out s q = cc

event_seeds :
    (run_id : String) (gen : ℕ) (baseline : ℕ) (ev : DerivedEvent) (res : TranslateResult) (w : Db)
    (out : TranslateResult)
    → IsOld baseline ev
    → IsSeeded true res
    → (translate_event run_id gen true baseline ev res w).0 ≡ ok out
    → IsSeeded true out
unfolding translate_event
event_seeds run_id gen baseline ev res w out o s q =
    after_record_seeds gen ev res _ _ out s (rw (decide_emit-old ev baseline o) at q)

continue_seeds :
    (run_id : String) (gen : ℕ) (baseline : ℕ) (evs : List DerivedEvent) (out : TranslateResult)
    → ((res : TranslateResult) (w : Db)
        → IsSeeded true res
        → (translate_events run_id gen true baseline evs res w).0 ≡ ok out
        → IsSeeded true out)
    → (r : Result TranslateResult) (w : Db)
    → ((res : TranslateResult) → r ≡ ok res → IsSeeded true res)
    → (continue r (translate_events run_id gen true baseline evs) w).0 ≡ ok out
    → IsSeeded true out
continue_seeds run_id gen baseline evs out rest (ok res) w s q = rest res w (s res refl) q
continue_seeds run_id gen baseline evs out rest (err e) w s q = cc

events_seed :
    (run_id : String) (gen : ℕ) (baseline : ℕ) (evs : List DerivedEvent) (res : TranslateResult)
    (w : Db) (out : TranslateResult)
    → All (IsOld baseline) evs
    → IsSeeded true res
    → (translate_events run_id gen true baseline evs res w).0 ≡ ok out
    → IsSeeded true out
unfolding translate_events
events_seed run_id gen baseline [] res w out o s q =
    same-IsSeeded res out s (ground arith) (ground arith)
events_seed run_id gen baseline (ev ∷ evs) res w out o s q =
    continue_seeds run_id gen baseline evs out
      (λ res w s q. events_seed run_id gen baseline evs res w out o.1 s q) _ _
      (λ res' e. event_seeds run_id gen baseline ev res w res' o.0 s e) q

emit_if-IsSeeded :
    (first : Bool) (e : Bool × String) (res : TranslateResult)
    → IsSeeded first res
    → IsSeeded first (emit_if e res)
emit_if-IsSeeded first (true, id) res s = record {
  scalars =
      All-append IsScalarItem res.emitted (emitted_item id work_refresh_scope ∷ []) s.scalars
        (refl, tt);
  same_first = s.same_first;
}
emit_if-IsSeeded first (false, id) res s = s

module _ (t : Translator) (run_id : String) (gen : ℕ) (ref : ThreadRef) (d : ThreadDetail) where
  labels_seed :
      (first : Bool) (res : TranslateResult) (state : Bool × String) (r : Result (Bool × String))
      (w : Db) (out : TranslateResult)
      → IsSeeded first res
      → (continue r (λ labels. pure (emit_if labels (emit_if state res))) w).0 ≡ ok out
      → IsSeeded first out
  labels_seed first res state (ok labels) w out s q =
      same-IsSeeded (emit_if labels (emit_if state res)) out
        (emit_if-IsSeeded first labels _ (emit_if-IsSeeded first state res s)) (ground arith)
        (ground arith)
  labels_seed first res state (err e) w out s q = cc

  state_seeds :
      (first : Bool) (res : TranslateResult) (r : Result (Bool × String)) (w : Db)
      (out : TranslateResult)
      → IsSeeded first res
      → (continue r (translate_labels t run_id gen d res) w).0 ≡ ok out
      → IsSeeded first out
  state_seeds first res (ok state) w out s q = labels_seed first res state _ _ out s q
  state_seeds first res (err e) w out s q = cc

  first_seeds :
      (first : Bool) (r : Result TranslateResult) (w : Db) (out : TranslateResult)
      → ((res : TranslateResult) → r ≡ ok res → IsSeeded first res)
      → (continue r (translate_scalars t run_id gen d) w).0 ≡ ok out
      → IsSeeded first out
  first_seeds first (ok res) w out s q = state_seeds first res _ _ out (s res refl) q
  first_seeds first (err e) w out s q = cc

  contact_seeds :
      (r : Result Bool) (w : Db) (out : TranslateResult)
      → r ≡ ok true
      → All (IsOld (baseline_of t ref)) (derive_events d)
      → (continue r (translate_first t run_id gen ref d) w).0 ≡ ok out
      → IsSeeded true out
  contact_seeds (ok true) w out c o q =
      first_seeds true _ _ out
        (λ res e.
          events_seed run_id gen (baseline_of t ref) (derive_events d) _ w res o
            (record { scalars = tt; same_first = refl }) e)
        q
  contact_seeds (ok false) w out c o q = cc
  contact_seeds (err e) w out c o q = cc

-- On the first translation of a thread, when no event of a comment or a review has a time after the
-- baseline, the only work items that are emitted are the `refresh_scope` ones of the state and the label set, and
-- the result says that the thread was first seen.
pub first_contact_quiet :
    (t : Translator) (run_id : String) (gen : ℕ) (ref : ThreadRef) (d : ThreadDetail) (w : Db)
    (res : TranslateResult)
    → t.q.fetch_thread_detail ref.kind ref.number ≡ ok d
    → (is_first_contact d.repo ref.kind ref.number w).0 ≡ ok true
    → All (IsOld (baseline_of t ref)) (derive_events d)
    → (translate t run_id gen ref w).0 ≡ ok res
    → All (λ (e : EmittedWorkItem). e.kind ≡ work_refresh_scope) res.emitted
      × (res.first_seen ≡ true)
unfolding translate translate_detail
first_contact_quiet t run_id gen ref d w res f c o q =
    let s = contact_seeds t run_id gen ref d _ _ res c o (rw f at q) in (s.scalars, s.same_first)
