-- ===== src/WorkerChannel/Services.antt =====
-- The other methods of internal/eventdelivery/workerchannel/server.go: DispatchWork, RecordArtifact and
-- SubmitTelemetry. What a stream yields and how it ends are arguments.
use botfam.Base.{
  ℕ, ◌≡◌, refl, sym, ◌∙◌, Bool, List, [], ◌∷◌, ◌++◌, append-nil, append_assoc, arith, Bool-cases,
  inl, inr, String, engine, message, Result, ok, err, Exec, raise, if◌then◌else◌, pure, ◌>>◌,
}
use botfam.Sql.{faulty, rest_of}
use botfam.Store.{Db, WorkItemRow}
use botfam.Store.Records.{record_artifact, record_telemetry_span}
use botfam.Store.Pending.{WorkItem, pending_work_items}
use botfam.Store.Pending.Order.{IsQueue, pending_in_order}
use botfam.WorkerChannel.{Service}

-- The server stream of DispatchWork: what was sent, and which calls of Send will fail.
pub record Stream : Type 0 where
  pub sent : List WorkItem
  pub faults : List Bool

unfoldable pub send_items : List WorkItem → Stream → Result (Unit {0}) × Stream
send_items [] s = (ok tt, s)
send_items (item ∷ items) s =
    let rest =
      send_items items (record { sent = s.sent ++ item ∷ []; faults = rest_of s.faults }) in
    if faulty s.faults then (err engine, record s { faults = rest_of s.faults }) else rest

abbrev send_answer : Result (List WorkItem) × Db → Stream → Result (Unit {0}) × Db × Stream
send_answer (ok items, w) s = let (r, s') = send_items items s in (r, w, s')
send_answer (err e, w) s = (err e, w, s)

-- Service.DispatchWork
unfoldable pub dispatch_work : Service → Db → Stream → Result (Unit {0}) × Db × Stream
dispatch_work s w stream =
    if s.db_present
    then send_answer (pending_work_items 100 w) stream
    else (err (message "workerchannel: db is required"), w, stream)

pub record Artifact : Type 0 where
  pub work_item_id : String
  pub kind : String
  pub uri : String
  pub sha256 : String

-- Service.RecordArtifact
unfoldable pub record_message : Service → String → Artifact → Exec Db (Unit {0})
record_message s new_id msg =
    if s.db_present
    then record_artifact new_id "" msg.work_item_id msg.kind msg.uri msg.sha256
    else raise (message "workerchannel: db is required")

send_ok :
    (items : List WorkItem) (s : Stream)
    → (send_items items s).0 ≡ ok tt
    → (send_items items s).1.sent ≡ s.sent ++ items
unfolding send_items
send_ok [] s q = sym (append-nil s.sent)
send_ok (item ∷ items) s q = elim (Bool-cases (faulty s.faults)) [
  | inl e ↦ absurd (ground arith)
  | inr e ↦ rw e (
      send_ok items (record { sent = s.sent ++ item ∷ []; faults = rest_of s.faults }) (rw e at q)
      ∙ append_assoc s.sent (item ∷ []) items)
]

sent_all :
    (table : List WorkItemRow) (r : Result (List WorkItem)) (w : Db) (s : Stream)
    → ((items : List WorkItem) → r ≡ ok items → IsQueue 100 table items)
    → (send_answer (r, w) s).0 ≡ ok tt
    → (items : List WorkItem) × IsQueue 100 table items
      × ((send_answer (r, w) s).2.sent ≡ s.sent ++ items)
sent_all table (ok items) w s h q = (items, h items refl, send_ok items s q)
sent_all table (err x) w s h q = cc

-- A dispatch that reports no error has sent, after what the stream had sent before, the first 100 of the
-- pending rows of the table, or all of them if there are fewer, oldest first by the time of creation, and
-- nothing else.
pub dispatch_sends_pending :
    (s : Service) (w : Db) (stream : Stream)
    → (dispatch_work s w stream).0 ≡ ok tt
    → (items : List WorkItem) × IsQueue 100 w.tables.work_items items
      × ((dispatch_work s w stream).2.sent ≡ stream.sent ++ items)
unfolding dispatch_work
dispatch_sends_pending s w stream q = elim (Bool-cases s.db_present) [
  | inl e ↦ rw e (sent_all w.tables.work_items _ _ stream (pending_in_order 100 w) (rw e at q))
  | inr e ↦ absurd (ground arith)
]

-- A span of the client stream of SubmitTelemetry; `timestamp` is its formatted time, "" if it has none.
pub record Span : Type 0 where
  pub trace_id : String
  pub span_id : String
  pub component : String
  pub event_type : String
  pub payload_json : String
  pub timestamp : String

unfoldable pub record_spans : (ℕ → String) → List Span → Exec Db (Unit {0})
record_spans print_time [] = pure tt
record_spans print_time (s ∷ spans) = do
  record_telemetry_span print_time s.trace_id s.span_id s.component s.event_type s.payload_json
      s.timestamp
  record_spans print_time spans

abbrev stream_end : Result (Unit {0}) → Exec Db (Unit {0})
stream_end r w = (r, w)

-- Service.SubmitTelemetry: the spans that Receive yields, and what Err answers after them
unfoldable pub submit_telemetry :
    (ℕ → String) → Service → List Span → Result (Unit {0}) → Exec Db (Unit {0})
submit_telemetry print_time s spans stream_err =
    if s.db_present
    then (do record_spans print_time spans; stream_end stream_err)
    else raise (message "workerchannel: db is required")
