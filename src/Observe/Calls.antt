-- ===== src/Observe/Calls.antt =====
-- Any sequence of calls of internal/eventdelivery/observe on one session.db.
use botfam.Base.{
  ℕ, Bool, true, false, List, [], ◌∷◌, String, ok, err, Result, Exec, continue, pure, ◌==◌,
  if◌then◌else◌,
}
use botfam.Sql.Laws.{Keeps, Keeps-pure, Keeps-if, Keeps-bind}
use botfam.Store.{Tables, Db}
use botfam.Observe.{Observation}
use botfam.Observe.Detail.{DetailQuerier}
use botfam.Observe.Record.{ingest}
use botfam.Observe.Scalar.{poll_head_sha, poll_commit_status, poll_status}
use botfam.Observe.Translate.{Translator, ThreadRef, translate, translate_detail}
use botfam.Observe.Grows.{
  Grows, ingest_from-Keeps, observe_scalar_change-Keeps, translate_detail-Keeps,
}

pub data Call : Type 0 where
  ingests : String → List Observation → Call
  translates : Translator → String → ℕ → ThreadRef → Call
  polls_head : DetailQuerier → String → ℕ → String → ℕ → Call
  polls_status : DetailQuerier → String → ℕ → String → ℕ → Call

-- The call, whatever it answers.
unfoldable pub step : Call → Db → Db
step (ingests run_id obs) w = (ingest run_id obs w).1
step (translates t run_id gen ref) w = (translate t run_id gen ref w).1
step (polls_head q run_id number sha gen) w = (poll_head_sha q run_id number sha gen w).1
step (polls_status q run_id number sha gen) w = (poll_commit_status q run_id number sha gen w).1

unfoldable pub run : List Call → Db → Db
run [] w = w
run (c ∷ cs) w = run cs (step c w)

module _ {P : Tables → Type 0} (g : Grows P) where
  pub poll_head_sha-Keeps :
      (q : DetailQuerier) (run_id : String) (number : ℕ) (sha : String) (gen : ℕ)
      → Keeps P (poll_head_sha q run_id number sha gen)
  unfolding poll_head_sha
  poll_head_sha-Keeps q run_id number sha gen =
      Keeps-if _ _ _ (Keeps-pure _) (
        Keeps-bind _ _ (observe_scalar_change-Keeps g _ _ _ _ _ _ _ _ _ _)
          λ out. Keeps-pure (out.0))

  poll_status-Keeps :
      (q : DetailQuerier) (run_id : String) (number : ℕ) (sha : String) (gen : ℕ) (state : String)
      → Keeps P (poll_status q run_id number sha gen state)
  poll_status-Keeps q run_id number sha gen state =
      Keeps-if _ _ _ (Keeps-pure _) (
        Keeps-bind _ _ (observe_scalar_change-Keeps g _ _ _ _ _ _ _ _ _ _)
          λ out. Keeps-pure (out.0))

  -- What the forge answers is a value.
  answered :
      {A B : Type 0} (r : Result A) (f : A → Exec Db B)
      → ((a : A) → Keeps P (f a))
      → (w : Db) → P w.tables
      → P (continue r f w).1.tables
  answered (ok a) f k w h = (k a).at w h
  answered (err e) f k w h = h

  if_answered :
      {B : Type 0} (b : Bool) (m n : Exec Db B) (w : Db)
      → P (m w).1.tables
      → P (n w).1.tables
      → P ((if b then m else n) w).1.tables
  if_answered true m n w hm hn = hm
  if_answered false m n w hm hn = hn

  step_keeps : (c : Call) (w : Db) → P w.tables → P (step c w).tables
  unfolding step ingest translate poll_commit_status
  step_keeps (ingests run_id obs) w h = (ingest_from-Keeps g run_id _ obs).at w h
  step_keeps (translates t run_id gen ref) w h =
      answered (t.q.fetch_thread_detail ref.kind ref.number) (translate_detail t run_id gen ref)
        (translate_detail-Keeps g t run_id gen ref) w h
  step_keeps (polls_head q run_id number sha gen) w h =
      (poll_head_sha-Keeps q run_id number sha gen).at w h
  step_keeps (polls_status q run_id number sha gen) w h =
      if_answered (sha == "") (pure false) _ w h (
        answered (q.combined_status_state sha) (poll_status q run_id number sha gen)
          (poll_status-Keeps q run_id number sha gen) w h)

  pub run_keeps : (cs : List Call) (w : Db) → P w.tables → P (run cs w).tables
  unfolding run
  run_keeps [] w h = h
  run_keeps (c ∷ cs) w h = run_keeps cs (step c w) (step_keeps c w h)
