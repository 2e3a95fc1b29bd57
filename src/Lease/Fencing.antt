-- ===== src/Lease/Fencing.antt =====
-- The fencing token of a new grant, over what the session file holds.
use botfam.Base.{
  ◌+◌, ◌%◌, ◌^◌, ◌<◌, ◌≡◌, refl, true, false, String, ◌==◌, eq_iff, eq_refl, arith, ap, ◌∙◌, [],
  Option, none, some, Result, ok, err, Exec, continue, ◌>>◌, Bool-cases, inl, inr,
}
use botfam.Sql.{faulty}
use botfam.Lease.{
  Lease, World, Process, AcquireRequest, SessionFile, Grant, write_session, attempt, adopt,
  try_lock, acquire, close, release, change_entry, set_locked, created, repo_of, next_token,
  session_of, skip_fault, modify, create_content,
}

abbrev pub content : World → String → Option (Option SessionFile)
content w r = (w.host.files r).content

write_content :
    (repo : String) (sf : SessionFile) (w : World)
    → (write_session repo sf w).0 ≡ ok tt
    → (content (write_session repo sf w).1 repo ≡ some (some sf))
      × ((write_session repo sf w).1.lease ≡ w.lease)
unfolding write_session
write_content repo sf w q = (ground (arith, eq_refl repo), ground arith)

-- A grant: what the file held before, and what it holds now.
pub record IsFenced (p : Process) (repo : String) (w : World) (g : Grant) (w' : World)
    : Type 0 where
  pub token : g.fencing_token ≡ next_token (content w repo)
  pub file : content w' repo ≡ some (some (session_of p g.fencing_token))
  pub held : w'.lease.held ≡ true
  pub repo_name : w'.lease.repo_name ≡ repo
  pub lease_id : w'.lease.lease_id ≡ g.lease_id

module _ (p : Process) (req : AcquireRequest) (repo : String) where
  adopt-IsFenced :
      (w w' : World) (r : Result (Unit {0})) (g : Grant)
      → (r ≡ ok tt → content w' repo ≡ some (some (session_of p (next_token (content w repo)))))
      → (continue r (adopt p req repo (next_token (content w repo))) w').0 ≡ ok g
      → IsFenced p repo w g (continue r (adopt p req repo (next_token (content w repo))) w').1
  adopt-IsFenced w w' (ok u) g k q =
      let e : g.fencing_token ≡ next_token (content w repo) = ground arith in
      record {
        token = e;
        file = rw e (ground (arith, k refl, eq_iff repo w'.lease.repo_name));
        held = refl;
        repo_name = refl;
        lease_id = ground arith;
      }
  adopt-IsFenced w w' (err e) g k q = cc

  try_lock-IsFenced :
      (w : World) (g : Grant)
      → (try_lock p req repo w).0 ≡ ok g
      → g.granted ≡ true
      → IsFenced p repo w g (try_lock p req repo w).1
  try_lock-IsFenced w g q t = elim (Bool-cases (w.host.files repo).locked) [
    | inl e ↦ absurd (ground arith)
    | inr e ↦ rw e (
        adopt-IsFenced w _ _ g
          (λ d.
            (write_content repo (session_of p (next_token (content w repo)))
              (change_entry repo (set_locked true) w) d).0)
          (rw e at q))
  ]

attempt_ok :
    {A : Type 0} (m : Exec World A) (w : World) (a : A)
    → ((attempt >> m) w).0 ≡ ok a
    → (attempt >> m) w ≡ m (skip_fault w)
attempt_ok m w a q = elim (Bool-cases (faulty w.host.faults)) [
  | inl e ↦ absurd (ground arith)
  | inr e ↦ rw e refl
]

abbrev lock_state : String → World → World
lock_state repo w = skip_fault (change_entry repo created (skip_fault (skip_fault w)))

-- A call of Acquire that grants has tried the lock.
acquire_tries :
    (p : Process) (req : AcquireRequest) (w : World) (g : Grant)
    → (acquire p req w).0 ≡ ok g
    → acquire p req w ≡ try_lock p req (repo_of p req) (lock_state (repo_of p req) w)
unfolding acquire
acquire_tries p req w g q = elim (Bool-cases (repo_of p req == "")) [
  | inl e ↦ absurd (ground arith)
  | inr e ↦
      let repo = repo_of p req in
      let m = modify (change_entry repo created) >> (attempt >> try_lock p req repo) in
      let q1 : ((attempt >> (attempt >> m)) w).0 ≡ ok g = rw e at q in
      let a1 = attempt_ok (attempt >> m) w g q1 in
      let q2 : ((attempt >> m) (skip_fault w)).0 ≡ ok g = rw a1 at q1 in
      let a2 = attempt_ok m (skip_fault w) g q2 in
      let q3 : ((attempt >> try_lock p req repo)
            (change_entry repo created (skip_fault (skip_fault w)))).0
          ≡ ok g =
        rw a2 at q2 in
      rw e (
        a1
        ∙ a2
        ∙ attempt_ok (try_lock p req repo) (change_entry repo created (skip_fault (skip_fault w))) g
            q3)
]

create_token : (c : Option (Option SessionFile)) → next_token (create_content c) ≡ next_token c
create_token none = refl
create_token (some c) = refl

pub acquire-IsFenced :
    (p : Process) (req : AcquireRequest) (w : World) (g : Grant)
    → (acquire p req w).0 ≡ ok g
    → g.granted ≡ true
    → IsFenced p (repo_of p req) w g (acquire p req w).1
acquire-IsFenced p req w g q t =
    let repo = repo_of p req in
    let a = acquire_tries p req w g q in
    let f = try_lock-IsFenced p req repo (lock_state repo w) g (rw a at q) t in
    let same : content (lock_state repo w) repo ≡ create_content (content w repo) =
      ground (arith, eq_refl repo) in
    rw a (record {
      token = f.token ∙ ap next_token same ∙ create_token (content w repo);
      file = f.file;
      held = f.held;
      repo_name = f.repo_name;
      lease_id = f.lease_id;
    })

close_content : (w : World) (r : String) → content (close w).1 r ≡ content w r
unfolding close
close_content w r = ground (arith, eq_iff r w.lease.repo_name)

abbrev pub dropped : World → Lease → World
dropped w l = record w { lease = l }

-- When a process has been granted the lease of a repository and closes it or dies, and another process
-- is granted it next, the second fencing token is the first plus one, modulo 2^64, and the session
-- file says so. The tokens are those of grants, so the first is not zero.
pub crash_fences :
    (p p' : Process) (req req' : AcquireRequest) (w : World) (l : Lease) (g g' : Grant)
    → (acquire p req w).0 ≡ ok g
    → g.granted ≡ true
    → 0 < g.fencing_token
    → repo_of p' req' ≡ repo_of p req
    → let w' = dropped (close (acquire p req w).1).1 l in
      (acquire p' req' w').0 ≡ ok g'
      → g'.granted ≡ true
      → (g'.fencing_token ≡ (g.fencing_token + 1) % 2 ^ 64)
        × (((acquire p' req' w').1.host.files (repo_of p req)).content
            ≡ some (some (session_of p' g'.fencing_token)))
crash_fences p p' req req' w l g g' q t z s q' t' =
    let f = acquire-IsFenced p req w g q t in
    let f' = acquire-IsFenced p' req' (dropped (close (acquire p req w).1).1 l) g' q' t' in
    let c : content (close (acquire p req w).1).1 (repo_of p req)
        ≡ some (some (session_of p g.fencing_token)) =
      close_content (acquire p req w).1 (repo_of p req) ∙ f.file in
    (ground (arith, f'.token, c, s), rw s at f'.file)

release_content :
    (w : World) (repo id : String)
    → w.lease.held ≡ true
    → w.lease.lease_id ≡ id
    → w.lease.repo_name ≡ repo
    → (id == "") ≡ false
    → (repo == "") ≡ false
    → w.host.faults ≡ []
    → content (release id w).1 repo ≡ none
unfolding release
release_content w repo id h i r z n f =
    ground (arith, eq_iff w.lease.lease_id id, eq_refl repo, eq_refl id)

-- When a process has been granted the lease of a repository with a lease id that is not empty, no I/O
-- error comes from then on, so that the release removes the session file, and no other process comes
-- between the parts of the release, then the next grant of the repository starts at 1.
pub release_resets :
    (p p' : Process) (req req' : AcquireRequest) (w : World) (l : Lease) (g g' : Grant)
    → (acquire p req w).0 ≡ ok g
    → g.granted ≡ true
    → (g.lease_id == "") ≡ false
    → (repo_of p req == "") ≡ false
    → repo_of p' req' ≡ repo_of p req
    → (acquire p req w).1.host.faults ≡ []
    → let w' = dropped (release g.lease_id (acquire p req w).1).1 l in
      (acquire p' req' w').0 ≡ ok g' → g'.granted ≡ true → g'.fencing_token ≡ 1
release_resets p p' req req' w l g g' q t z n s nf q' t' =
    let f = acquire-IsFenced p req w g q t in
    let f' =
      acquire-IsFenced p' req' (dropped (release g.lease_id (acquire p req w).1).1 l) g' q' t' in
    let c : content (release g.lease_id (acquire p req w).1).1 (repo_of p req) ≡ none =
      release_content (acquire p req w).1 (repo_of p req) g.lease_id f.held f.lease_id f.repo_name z
        n nf in
    ground (arith, f'.token, c, s)
