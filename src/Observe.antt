-- ===== src/Observe.antt =====
-- internal/eventdelivery/observe: observation.go, watermark.go and the pure parts of observer.go.
-- Times are numbers, later is larger; artifact numbers are not negative.
pub mod Record
pub mod Detail
pub mod Scalar
pub mod Translate
pub mod Gate
pub mod Dedupe
pub mod Subject
pub mod Worklist
pub mod Poll
pub mod Adapter
mod Grows
pub mod Ingest
pub mod Calls
pub mod Once
mod Recorded
pub mod Again
pub mod NewEvent
pub mod FirstContact
use Prim.Native.String.{◌++◌ as append}
use botfam.Base.{
  ℕ, ◌≡◌, Bool, true, false, List, [], ◌∷◌, Option, none, some, String, ◌==◌, ltb, any, map,
  if◌then◌else◌,
}
use botfam.Base.Text.{join, format_int}

pub record Observation : Type 0 where
  pub source : String
  pub repo : String
  pub artifact_kind : String
  pub artifact_number : ℕ
  pub notification_thread_id : String
  pub event_kind : String
  pub event_key : String
  pub event_class : String
  pub source_query : String
  pub payload_json : String

abbrev pub source_forge : String
source_forge = "forge"

abbrev pub kind_issue : String
kind_issue = "issue"

abbrev pub kind_pull : String
kind_pull = "pull"

abbrev pub class_stable_id : String
class_stable_id = "stable-id"

abbrev pub class_synthetic_id : String
class_synthetic_id = "synthetic-id"

abbrev pub class_query_only : String
class_query_only = "query-only"

abbrev pub event_assigned_open : String
event_assigned_open = "assigned_open"

abbrev pub event_review_requested : String
event_review_requested = "review_requested"

abbrev pub event_push : String
event_push = "push"

abbrev pub event_notification : String
event_notification = "notification"

-- Observation.EventID
unfoldable pub event_id : Observation → String
event_id o = join ":" (
    o.source
    ∷ o.repo
    ∷ o.artifact_kind
    ∷ format_int o.artifact_number
    ∷ o.event_kind
    ∷ o.event_key
    ∷ [])

pub record SessionWatermark : Type 0 where
  pub start : ℕ

-- SessionWatermark.IsLiveWake
abbrev pub is_live_wake : SessionWatermark → ℕ → Bool
is_live_wake w t = ltb w.start t

pub record TimedObservation : Type 0 where
  pub observation : Observation
  pub at : ℕ

-- Observer.LiveWakes
unfoldable pub live_wakes : SessionWatermark → List TimedObservation → List Observation
live_wakes w [] = []
live_wakes w (t ∷ obs) =
    let rest = live_wakes w obs in if is_live_wake w t.at then t.observation ∷ rest else rest

abbrev pub is_seen : List String → Observation → Bool
is_seen seen o = any (λ id. id == event_id o) seen

-- The loop of dedupe: `seen` holds the ids of the map.
unfoldable pub dedupe_from : List String → List Observation → List Observation
dedupe_from seen [] = []
dedupe_from seen (ob ∷ obs) =
    let rest = dedupe_from (if is_seen seen ob then seen else event_id ob ∷ seen) obs in
    if is_seen seen ob then rest else ob ∷ rest

abbrev pub dedupe : List Observation → List Observation
dedupe obs = dedupe_from [] obs
