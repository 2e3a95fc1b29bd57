-- ===== src/Lease/Exclusive.antt =====
-- A repository is leased to one process at a time, as long as no process calls Release (see Lease.Race).
use botfam.Base.{
  ℕ, ◌≡◌, ◌≢◌, refl, Bool, true, false, ◌&&◌, List, [], ◌∷◌, String, ◌==◌, eq_iff, eq_refl, arith,
  nat_eq, nat_eq_iff, Result, ok, err, Exec, continue, ◌>>◌, Bool-cases, inl, inr, if◌then◌else◌,
}
use botfam.Sql.{faulty}
use botfam.Lease.{
  Lease, World, Host, Process, AcquireRequest, SessionFile, write_session, attempt, grant_locked,
  adopt, try_lock, acquire, renew, close, set_endpoint, rewrite_session, change_entry, set_locked,
  created, repo_of, next_token, session_of, new_lease, skip_fault,
}
use botfam.Lease.Calls.{System, Call, acquires, renews, closes, sets_endpoint, perform, step, run}

abbrev is_locked : World → String → Bool
is_locked w r = (w.host.files r).locked

abbrev owns : Lease → String → Bool
owns l r = l.held && l.repo_name == r

-- Neither the locks nor the handler change.
record SameLocks (w w' : World) : Type 0 where
  lease : w'.lease ≡ w.lease
  locks : (r : String) → is_locked w' r ≡ is_locked w r

-- The handler has the locks that it holds, and leaves the locks of the others alone.
record Respects (w w' : World) : Type 0 where
  own : (r : String) → owns w'.lease r ≡ true → is_locked w' r ≡ true
  others :
      (r : String)
      → is_locked w r ≡ true
      → owns w.lease r ≡ false
      → (is_locked w' r ≡ true) × (owns w'.lease r ≡ false)

abbrev HasOwn : World → Type 0
HasOwn w = (r : String) → owns w.lease r ≡ true → is_locked w r ≡ true

same-Respects : (w w' : World) → HasOwn w → SameLocks w w' → Respects w w'
same-Respects w w' h s = record {
  own = λ r o. ground (arith, s.lease, s.locks r, h r);
  others = λ r l n. (ground (arith, s.locks r), ground (arith, s.lease));
}

abbrev is_ok : {A : Type 0} → Result A → Bool
is_ok (ok a) = true
is_ok (err e) = false

write_locks :
    (repo : String) (sf : SessionFile) (w : World) (r : String)
    → is_locked w repo ≡ true
    → is_locked (write_session repo sf w).1 r
      ≡ (if r == repo then is_ok (write_session repo sf w).0 else is_locked w r)
unfolding write_session
write_locks repo sf w r l = ground (arith, eq_iff r repo, eq_refl repo)

write_lease :
    (repo : String) (sf : SessionFile) (w : World) → (write_session repo sf w).1.lease ≡ w.lease
unfolding write_session
write_lease repo sf w = ground arith

rewrite_same :
    (repo : String) (sf : SessionFile) (w : World) → SameLocks w (rewrite_session repo sf w).1
rewrite_same repo sf w = record {
  lease = ground arith;
  locks = λ r. ground (arith, eq_iff r repo, eq_refl repo);
}

module _ (p : Process) (req : AcquireRequest) (repo : String) (w : World)
    (free : is_locked w repo ≡ false) (h : HasOwn w) where
  -- The write is over, in the state `w'` with the result `r`.
  finish-Respects :
      (token : ℕ) (r : Result (Unit {0})) (w' : World)
      → w'.lease ≡ w.lease
      → ((q : String) → is_locked w' q ≡ (if q == repo then is_ok r else is_locked w q))
      → Respects w (continue r (adopt p req repo token) w').1
  finish-Respects token (ok u) w' l k =
      let n : owns w.lease repo ≡ false = ground (arith, h repo) in
      let t : (r : String) → owns w.lease r ≡ true → (r == repo) ≡ false =
        λ r o. ground (arith, h r, eq_iff r repo, free) in
      record {
        own = λ r o. ground (
          arith,
          k r,
          k repo,
          l,
          eq_iff repo r,
          eq_refl repo,
          n,
          eq_iff w.lease.repo_name repo,
          eq_iff repo w.lease.repo_name,
        );
        others = λ r o m. (
          ground
              (arith, k r, l, m, eq_iff r w.lease.repo_name, eq_refl w.lease.repo_name, eq_refl r),
          ground (arith, eq_iff repo r, free),
        );
      }
  finish-Respects token (err e) w' l k = record {
    own = λ r o. ground (arith, k r, h r, eq_iff r repo, free);
    others = λ r o n. (ground (arith, k r, eq_iff r repo, free), ground (arith));
  }

  lock-Respects :
      (token : ℕ)
      → Respects w (grant_locked p req repo token (change_entry repo (set_locked true) w)).1
  lock-Respects token = finish-Respects token _ _ (write_lease repo (session_of p token) _) λ q.
      ground (
        arith,
        write_locks repo (session_of p token) (change_entry repo (set_locked true) w) q,
        eq_refl repo,
        eq_iff q repo,
      )

try_lock-Respects :
    (p : Process) (req : AcquireRequest) (repo : String) (w : World)
    → HasOwn w
    → Respects w (try_lock p req repo w).1
try_lock-Respects p req repo w h = elim (Bool-cases (is_locked w repo)) [
  | inl e ↦ rw e (same-Respects w w h (record { lease = refl; locks = λ r. refl }))
  | inr e ↦ rw e (lock-Respects p req repo w e h (next_token (w.host.files repo).content))
]

after_same : (w w' w'' : World) → SameLocks w w' → Respects w' w'' → Respects w w''
after_same w w' w'' s k = record {
  own = k.own;
  others = λ r l n. k.others r (ground (arith, s.locks r)) (ground (arith, s.lease));
}

same-HasOwn : (w w' : World) → SameLocks w w' → HasOwn w → HasOwn w'
same-HasOwn w w' s h r o = ground (arith, s.lease, s.locks r, h r)

attempt_then :
    {A : Type 0} (m : Exec World A) (w : World)
    → HasOwn w
    → Respects w (m (skip_fault w)).1
    → Respects w ((attempt >> m) w).1
attempt_then m w h k = elim (Bool-cases (faulty w.host.faults)) [
  | inl e ↦ rw e (same-Respects w _ h (record { lease = refl; locks = λ r. refl }))
  | inr e ↦ rw e k
]

acquire-Respects :
    (p : Process) (req : AcquireRequest) (w : World) → HasOwn w → Respects w (acquire p req w).1
unfolding acquire
acquire-Respects p req w h = elim (Bool-cases (repo_of p req == "")) [
  | inl e ↦ rw e (same-Respects w w h (record { lease = refl; locks = λ r. refl }))
  | inr e ↦
      let repo = repo_of p req in
      let w' = change_entry repo created (skip_fault (skip_fault w)) in
      let s : SameLocks w w' = record {
        lease = refl;
        locks = λ r. ground (arith, eq_iff r repo);
      } in
      let same : SameLocks w (skip_fault w) = record { lease = refl; locks = λ r. refl } in
      rw e (
        attempt_then _ w h (
          after_same w (skip_fault w) _ same (
            attempt_then _ (skip_fault w) h (
              after_same (skip_fault w) w' _ (record { lease = refl; locks = s.locks })
                (attempt_then (try_lock p req repo) w' (same-HasOwn w w' s h) (
                  after_same w' (skip_fault w') _ (record { lease = refl; locks = λ r. refl })
                    (try_lock-Respects p req repo (skip_fault w') (same-HasOwn w w' s h))))))))
]

close-Respects : (w : World) → HasOwn w → Respects w (close w).1
unfolding close
close-Respects w h = record {
  own = λ r o. ground (arith, h r);
  others = λ r l n. (ground (arith, eq_iff r w.lease.repo_name, eq_refl r), ground (arith));
}

if_same :
    {A : Type 0} (b : Bool) (w : World) (m n : Result A × World)
    → SameLocks w m.1
    → SameLocks w n.1
    → SameLocks w (if b then m else n).1
if_same true w m n hm hn = hm
if_same false w m n hm hn = hn

perform-Respects : (c : Call) (w : World) → HasOwn w → Respects w (perform c w)
unfolding perform renew set_endpoint
perform-Respects (acquires p req) w h = acquire-Respects p req w h
perform-Respects (renews p id) w h =
    same-Respects w _ h (record { lease = ground arith; locks = λ r. ground arith })
perform-Respects closes w h = close-Respects w h
perform-Respects (sets_endpoint p addr token id) w h = same-Respects w _ h (
    if_same w.lease.held w _ _ (rewrite_same w.lease.repo_name _ w)
      (record { lease = refl; locks = λ r. refl }))

-- Every handler has the locks that it holds, and no two hold one repository.
pub record IsExclusive (s : System) : Type 0 where
  pub own : (i : ℕ) (r : String) → owns (s.leases i) r ≡ true → (s.host.files r).locked ≡ true
  pub apart :
      (i j : ℕ) (r : String)
      → nat_eq i j ≡ false
      → owns (s.leases i) r ≡ true
      → owns (s.leases j) r ≡ false

step-IsExclusive : (i : ℕ) (c : Call) (s : System) → IsExclusive s → IsExclusive (step i c s)
unfolding step
step-IsExclusive i c s x =
    let w : World = record { lease = s.leases i; host = s.host } in
    let k : Respects w (perform c w) = perform-Respects c w (x.own i) in
    record {
      own = λ j r o. elim (Bool-cases (nat_eq j i)) [
        | inl e ↦ ground (arith, k.own r)
        | inr e ↦ ground (arith, k.others r, x.own j r, x.apart j i r)
      ];
      apart = λ j m r n o. ground (
        arith,
        k.own r,
        k.others r,
        x.own j r,
        x.own m r,
        x.apart j i r,
        x.apart m i r,
        x.apart i m r,
        x.apart j m r,
        x.apart m j r,
        x.apart i j r,
      );
    }

run-IsExclusive : (cs : List (ℕ × Call)) (s : System) → IsExclusive s → IsExclusive (run cs s)
unfolding run
run-IsExclusive [] s x = x
run-IsExclusive ((i, c) ∷ cs) s x = run-IsExclusive cs (step i c s) (step-IsExclusive i c s x)

-- After any calls of Acquire, Renew, SetEndpoint and Close, in any order, of any processes on one host
-- that starts without leases, whatever I/O errors come, two processes never hold the lease of one repository at the same time, and the session file of a
-- repository that a process holds is locked.
pub lease_exclusive :
    (cs : List (ℕ × Call)) (host : Host) (i j : ℕ) (r : String)
    → let s = run cs (record { leases = λ _. new_lease; host = host }) in
      i ≢ j
      → (s.leases i).held ≡ true
      → (s.leases i).repo_name ≡ r
      → ((s.host.files r).locked ≡ true)
        × (((s.leases j).held && (s.leases j).repo_name == r) ≡ false)
lease_exclusive cs host i j r n h e =
    let x =
      run-IsExclusive cs (record { leases = λ _. new_lease; host = host })
        (record { own = λ i r o. cc; apart = λ i j r n o. refl }) in
    let o : owns ((run cs (record { leases = λ _. new_lease; host = host })).leases i) r ≡ true =
      ground (
        arith,
        h,
        e,
        eq_iff ((run cs (record { leases = λ _. new_lease; host = host })).leases i).repo_name r,
      ) in
    (x.own i r o, x.apart i j r (ground (arith, n, nat_eq_iff i j)) o)
