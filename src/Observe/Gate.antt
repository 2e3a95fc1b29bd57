-- ===== src/Observe/Gate.antt =====
-- internal/eventdelivery/observe/gate.go
use botfam.Base.{ℕ, Bool, not, ◌&&◌, List, ltb, filter, length, Result, ok, err}
use botfam.Observe.Detail.{Blocker, is_open, DetailQuerier}

abbrev pub offends : (ℕ → Bool) → Blocker → Bool
offends in_scope b = is_open b && not (in_scope b.number)

abbrev pub blocked_by : List Blocker → Bool × List Blocker
blocked_by offending = (ltb 0 (length offending), offending)

-- The blockers that offend, in order: the loop of CloseMergeGate.
abbrev gate_of : (ℕ → Bool) → Result (List Blocker) → Result (Bool × List Blocker)
gate_of in_scope (err e) = err e
gate_of in_scope (ok blockers) = ok (blocked_by (filter (offends in_scope) blockers))

-- CloseMergeGate; `in_scope` is the map, false on a missing key.
unfoldable pub close_merge_gate : DetailQuerier → ℕ → (ℕ → Bool) → Result (Bool × List Blocker)
close_merge_gate q number in_scope = gate_of in_scope (q.list_blockers number)
