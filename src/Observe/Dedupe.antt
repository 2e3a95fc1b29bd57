-- ===== src/Observe/Dedupe.antt =====
-- dedupe of internal/eventdelivery/observe/observer.go: each event once, and none is lost.
use botfam.Base.{
  ◌≡◌, refl, Bool, false, not, ◌&&◌, List, [], ◌∷◌, String, ◌==◌, eq_iff, eq_refl, arith, any,
  Bool-cases, inl, inr,
}
use botfam.Observe.{Observation, event_id, is_seen, dedupe_from, dedupe}

abbrev pub has_event : String → Observation → Bool
has_event id o = event_id o == id

-- No two observations have the same id.
pub IsDistinct : List Observation → Type 0
IsDistinct [] = Unit
IsDistinct (o ∷ obs) = (any (has_event (event_id o)) obs ≡ false) × IsDistinct obs

-- An id is in the result if it is in the list and has not been seen before.
dedupe_from_ids :
    (id : String) (seen : List String) (obs : List Observation)
    → any (has_event id) (dedupe_from seen obs)
      ≡ (any (has_event id) obs && not (any (λ s. s == id) seen))
unfolding dedupe_from any
dedupe_from_ids id seen [] = refl
dedupe_from_ids id seen (o ∷ obs) = elim (Bool-cases (is_seen seen o)) [
  | inl e ↦ rw e (elim (Bool-cases (event_id o == id)) [
    | inl f ↦ ground (arith, dedupe_from_ids id seen obs, (eq_iff (event_id o) id).0 f)
    | inr f ↦ ground (arith, dedupe_from_ids id seen obs)
  ])
  | inr e ↦ rw e (elim (Bool-cases (event_id o == id)) [
    | inl f ↦
        ground (arith, dedupe_from_ids id (event_id o ∷ seen) obs, (eq_iff (event_id o) id).0 f)
    | inr f ↦ ground (arith, dedupe_from_ids id (event_id o ∷ seen) obs)
  ])
]

dedupe_from-IsDistinct :
    (seen : List String) (obs : List Observation) → IsDistinct (dedupe_from seen obs)
unfolding dedupe_from IsDistinct any
dedupe_from-IsDistinct seen [] = tt
dedupe_from-IsDistinct seen (o ∷ obs) = elim (Bool-cases (is_seen seen o)) [
  | inl e ↦ rw e (dedupe_from-IsDistinct seen obs)
  | inr e ↦ rw e (once, dedupe_from-IsDistinct (event_id o ∷ seen) obs)
]
  where
    once : any (has_event (event_id o)) (dedupe_from (event_id o ∷ seen) obs) ≡ false
    once =
        ground (arith, dedupe_from_ids (event_id o) (event_id o ∷ seen) obs, eq_refl (event_id o))

-- The observations of a poll have distinct ids after dedupe, and each id that was there still is.
pub dedupe_lossless :
    (obs : List Observation)
    → IsDistinct (dedupe obs)
      × ((id : String) → any (has_event id) (dedupe obs) ≡ any (has_event id) obs)
unfolding any
dedupe_lossless obs =
    (dedupe_from-IsDistinct [] obs, λ id. ground (arith, dedupe_from_ids id [] obs))
