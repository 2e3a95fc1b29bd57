-- ===== src/Lease/Race.antt =====
-- Release of internal/eventdelivery/singlehost/lease.go with another process between its two parts.
use botfam.Base.{String, ◌≡◌, ◌∙◌, true, false, [], arith, ◌==◌, eq_refl}
use botfam.Lease.{
  World, Host, Process, AcquireRequest, acquire, write_session, unlock_file, unlink_file, new_lease,
  repo_of, next_token,
}

-- the host as another process sees it that holds nothing
abbrev pub newcomer : World → World
newcomer w = record { lease = new_lease; host = w.host }

-- the releasing process again, with what another one made of the host
abbrev pub resumed : World → World → World
resumed w w' = record { lease = w.lease; host = w'.host }

-- Whoever opens a file that is not locked, and meets no error, has the lease.
module _ (p : Process) (req : AcquireRequest) (r : String) (host : Host) (named : repo_of p req ≡ r)
    (some_name : (r == "") ≡ false) (free : (host.files r).locked ≡ false)
    (quiet : host.faults ≡ []) where
  abbrev after : World
  after = (acquire p req (record { lease = new_lease; host = host })).1

  unlocked-acquire :
      (after.lease.held ≡ true)
      × (after.lease.repo_name ≡ r)
      × (after.host.faults ≡ [])
      × (after.lease.fencing_token ≡ next_token (host.files r).content)
  unfolding acquire write_session
  unlocked-acquire = ground (arith, named, some_name, free, quiet, eq_refl r)

-- Both processes hold the lease of the repository.
pub record IsShared (r : String) (w w' : World) : Type 0 where
  pub held : w.lease.held ≡ true
  pub repo_name : w.lease.repo_name ≡ r
  pub held' : w'.lease.held ≡ true
  pub repo_name' : w'.lease.repo_name ≡ r
  -- the second one has a token as if nobody had held the lease before
  pub first_token : w'.lease.fencing_token ≡ 1

-- Let a process that holds the lease of a repository release it, let a second process acquire the
-- lease after the unlock and before the remove, and a third one after the remove. If there is no I/O error, then
-- both of them hold the lease at the end, and the fencing token of the third is 1.
pub release_shares :
    (p p' : Process) (req req' : AcquireRequest) (r : String) (w : World)
    → w.lease.held ≡ true
    → w.lease.repo_name ≡ r
    → w.host.faults ≡ []
    → (r == "") ≡ false
    → repo_of p req ≡ r
    → repo_of p' req' ≡ r
    → let unlocked = unlock_file w in
      let second = (acquire p req (newcomer unlocked)).1 in
      let unlinked = unlink_file (resumed unlocked second) in
      let third = (acquire p' req' (newcomer unlinked)).1 in IsShared r second third
release_shares p p' req req' r w h e q n o o' =
    let unlocked = unlock_file w in
    let second = (acquire p req (newcomer unlocked)).1 in
    let unlinked = unlink_file (resumed unlocked second) in
    let a =
      unlocked-acquire p req r unlocked.host o n (ground (arith, h, e, eq_refl r))
        (ground (arith, h, e, q)) in
    let f : second.host.faults ≡ [] = a.2 in
    let b =
      unlocked-acquire p' req' r unlinked.host o' n (ground (arith, h, e, n, f, eq_refl r))
        (ground (arith, h, e, n, f, eq_refl r)) in
    record {
      held = a.0;
      repo_name = a.1;
      held' = b.0;
      repo_name' = b.1;
      first_token = b.3 ∙ ground (arith, h, e, n, f, eq_refl r);
    }
