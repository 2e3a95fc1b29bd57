-- ===== src/Lease/Calls.antt =====
-- Several processes of one host, each with its lease handler. Release is not one of the calls: between
-- its unlock and its remove other processes run (Lease.Race).
use botfam.Base.{ℕ, List, [], ◌∷◌, String, nat_eq, if◌then◌else◌}
use botfam.Lease.{Lease, World, Host, Process, AcquireRequest, acquire, renew, close, set_endpoint}

pub record System : Type 0 where
  pub leases : ℕ → Lease
  pub host : Host

pub data Call : Type 0 where
  acquires : Process → AcquireRequest → Call
  renews : Process → String → Call
  closes : Call
  sets_endpoint : Process → String → String → String → Call

-- What a call makes of its handler and of the host, whatever it answers.
unfoldable pub perform : Call → World → World
perform (acquires p req) w = (acquire p req w).1
perform (renews p id) w = (renew p id w).1
perform closes w = (close w).1
perform (sets_endpoint p addr token id) w = (set_endpoint p addr token id w).1

abbrev pub put_lease : ℕ → Lease → (ℕ → Lease) → ℕ → Lease
put_lease i l leases j = if nat_eq j i then l else leases j

abbrev pub back : ℕ → System → World → System
back i s w = record { leases = put_lease i w.lease s.leases; host = w.host }

unfoldable pub step : ℕ → Call → System → System
step i c s = back i s (perform c (record { lease = s.leases i; host = s.host }))

-- Calls of the processes, in the order in which they take place.
unfoldable pub run : List (ℕ × Call) → System → System
run [] s = s
run ((i, c) ∷ cs) s = run cs (step i c s)
