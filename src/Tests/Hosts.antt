-- ===== src/Tests/Hosts.antt =====
-- internal/eventdelivery/singlehost on one host with two processes.
use botfam.Base.{
  Bool, true, ℕ, ◌+◌, ◌%◌, ◌^◌, ◌≡◌, ◌≢◌, refl, true, false, ◌&&◌, List, [], ◌∷◌, none, some, ◌==◌,
  ok, arith,
}
use botfam.Lease.{
  World, Host, Process, AcquireRequest, Grant, acquire, write_session, close, release, new_lease,
  session_of, unlock_file, unlink_file,
}
use botfam.Lease.Calls.{System, Call, acquires, run, step, perform}
use botfam.Lease.Resolve.{resolve, grant_resolves}
use botfam.Lease.Exclusive.{lease_exclusive}
use botfam.Lease.Race.{IsShared, newcomer, resumed, release_shares}
use botfam.Lease.Fencing.{crash_fences, release_resets, dropped}

abbrev first : Process
first = record { resolved = "r"; lease_id = "L1"; token = "t1"; pid = 11; now = 100 }

abbrev second : Process
second = record { resolved = "r"; lease_id = "L2"; token = "t2"; pid = 12; now = 200 }

abbrev request : AcquireRequest
request = record { repo_name = "r"; ttl = none }

abbrev host : Host
host = record { files = λ r. record { content = none; locked = false }; faults = [] }

abbrev world : World
world = record { lease = new_lease; host = host }

abbrev first_grant : Grant
first_grant = record { granted = true; lease_id = "L1"; fencing_token = 1; expires_at = 10100 }

abbrev second_grant : Grant
second_grant = record { granted = true; lease_id = "L2"; fencing_token = 2; expires_at = 10200 }

first_test : (acquire first request world).0 ≡ ok first_grant
unfolding acquire write_session
first_test = refl

second_test :
    (acquire second request (dropped (close (acquire first request world).1).1 new_lease)).0
    ≡ ok second_grant
unfolding acquire write_session close
second_test = refl

crash_fences_example :
    let w = dropped (close (acquire first request world).1).1 new_lease in
    (2 ≡ (1 + 1) % 2 ^ 64)
    × (((acquire second request w).1.host.files "r").content ≡ some (some (session_of second 2)))
crash_fences_example =
    crash_fences first second request request world new_lease first_grant second_grant first_test
      refl (omega arith) refl second_test refl

abbrev again_grant : Grant
again_grant = record second_grant { fencing_token = 1 }

again_test :
    (acquire second request (dropped (release "L1" (acquire first request world).1).1 new_lease)).0
    ≡ ok again_grant
unfolding acquire write_session release
again_test = refl

no_faults_test : (acquire first request world).1.host.faults ≡ []
unfolding acquire write_session
no_faults_test = refl

release_resets_example : again_grant.fencing_token ≡ 1
release_resets_example =
    release_resets first second request request world new_lease first_grant again_grant first_test
      refl refl refl refl no_faults_test again_test refl

abbrev calls : List (ℕ × Call)
calls = (0, acquires first request) ∷ (1, acquires second request) ∷ []

abbrev system : System
system = run calls (record { leases = λ _. new_lease; host = host })

held_test : (system.leases 0).held ≡ true
unfolding run step perform acquire write_session
held_test = refl

repo_test : (system.leases 0).repo_name ≡ "r"
unfolding run step perform acquire write_session
repo_test = refl

abbrev here : ℕ
here = 0

abbrev there : ℕ
there = 1

distinct : here ≢ there
distinct e = omega (arith, e)

lease_exclusive_example :
    ((system.host.files "r").locked ≡ true)
    × (((system.leases 1).held && (system.leases 1).repo_name == "r") ≡ false)
lease_exclusive_example = lease_exclusive calls host 0 1 "r" distinct held_test repo_test

abbrev lives : ℕ → Bool
lives pid = true

grant_resolves_example :
    resolve lives first request (acquire first request world).1.host.files
    ≡ ok (record {
      found = true;
      address = "127.0.0.1:0";
      token = "t1";
      session_id = "L1";
      fencing_token = 1;
    })
grant_resolves_example =
    grant_resolves first request world first_grant lives first_test refl refl refl

-- the first process has the lease, and the second and a third one come while it releases it
abbrev holding : World
holding = (acquire first request world).1

holding_test : (holding.lease.held ≡ true) × (holding.lease.repo_name ≡ "r")
unfolding acquire write_session
holding_test = (refl, refl)

release_shares_example :
    let unlocked = unlock_file holding in
    let taken = (acquire second request (newcomer unlocked)).1 in
    let unlinked = unlink_file (resumed unlocked taken) in
    IsShared "r" taken (acquire second request (newcomer unlinked)).1
release_shares_example =
    release_shares second second request request "r" holding holding_test.0 holding_test.1
      no_faults_test refl refl refl
