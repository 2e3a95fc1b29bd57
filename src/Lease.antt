-- ===== src/Lease.antt =====
-- internal/eventdelivery/singlehost/lease.go, with SessionFile of config.go: the lease of a repository
-- on one host, held by an flock on its session file.
--
-- `faults` is the schedule of the I/O errors: each call that may fail takes the next entry. The
-- files are a map from repository names; a lock is held by one open file, so a second open of the
-- same file finds it locked, also in the process that holds it. Random ids, the process id, the
-- clock and what ResolveRepoName makes of the working directory are parameters.
pub mod Calls
pub mod Exclusive
pub mod Race
pub mod Fencing
pub mod Resolve
use botfam.Base.{
  ℕ, ◌+◌, ◌%◌, ◌^◌, ◌≡◌, Bool, true, false, not, ◌&&◌, ◌||◌, List, [], ◌∷◌, Option, none, some,
  String, ◌==◌, ltb, engine, message, Result, ok, err, Exec, pure, raise, continue, ◌>>=◌, ◌>>◌,
  if◌then◌else◌,
}
use botfam.Sql.{faulty, rest_of}

pub record SessionFile : Type 0 where
  pub lease_id : String
  pub fencing_token : ℕ
  pub pid : ℕ
  pub addr : String
  pub token : String
  pub session_id : String

-- A session file: `none` if there is none, `some none` if it holds no session; and its lock.
pub record Entry : Type 0 where
  pub content : Option (Option SessionFile)
  pub locked : Bool

pub record Host : Type 0 where
  pub files : String → Entry
  pub faults : List Bool

-- Lease; `file != nil` is `held`. The file is that of `repo_name`.
pub record Lease : Type 0 where
  pub held : Bool
  pub lease_id : String
  pub fencing_token : ℕ
  pub repo_name : String

-- A handler, and the host that it shares with the others.
pub record World : Type 0 where
  pub lease : Lease
  pub host : Host

abbrev pub new_lease : Lease
new_lease = record { held = false; lease_id = ""; fencing_token = 0; repo_name = "" }

pub record AcquireRequest : Type 0 where
  pub repo_name : String
  pub ttl : Option ℕ

-- What the process draws, reads and resolves during a call.
pub record Process : Type 0 where
  pub resolved : String
  pub lease_id : String
  pub token : String
  pub pid : ℕ
  pub now : ℕ

pub record Grant : Type 0 where
  pub granted : Bool
  pub lease_id : String
  pub fencing_token : ℕ
  pub expires_at : ℕ

abbrev pub no_grant : Grant
no_grant = record { granted = false; lease_id = ""; fencing_token = 0; expires_at = 0 }

abbrev pub skip_fault : World → World
skip_fault w = record w { host = record w.host { faults = rest_of w.host.faults } }

-- An I/O call that may report an error.
abbrev pub attempt : Exec World (Unit {0})
attempt w = if faulty w.host.faults then (err engine, skip_fault w) else (ok tt, skip_fault w)

abbrev pub put_entry : String → Entry → (String → Entry) → String → Entry
put_entry repo e files r = if r == repo then e else files r

abbrev pub change_entry : String → (Entry → Entry) → World → World
change_entry repo f w = record w {
  host = record w.host { files = put_entry repo (f (w.host.files repo)) w.host.files };
}

abbrev pub modify : (World → World) → Exec World (Unit {0})
modify f w = (ok tt, f w)

abbrev pub set_locked : Bool → Entry → Entry
set_locked b e = record e { locked = b }

abbrev pub set_content : Option SessionFile → Entry → Entry
set_content c e = record e { content = some c }

abbrev pub create_content : Option (Option SessionFile) → Option (Option SessionFile)
create_content none = some none
create_content (some c) = some c

abbrev pub created : Entry → Entry
created e = record e { content = create_content e.content }

-- After an error of a write: the lock is given back, and the error returned.
abbrev pub unlock_on_error : String → Result (Unit {0}) → Exec World (Unit {0})
unlock_on_error repo (ok u) w = (ok u, w)
unlock_on_error repo (err e) w = (err e, change_entry repo (set_locked false) w)

abbrev pub attempt_locked : String → Exec World (Unit {0})
attempt_locked repo w = let (r, w') = attempt w in unlock_on_error repo r w'

-- Seek, Truncate, Encode and Sync of Acquire
unfoldable pub write_session : String → SessionFile → Exec World (Unit {0})
write_session repo sf = do
  attempt_locked repo
  attempt_locked repo
  modify (change_entry repo (set_content none))
  attempt_locked repo
  modify (change_entry repo (set_content (some sf)))
  attempt_locked repo

-- The fencing token of a new grant, over what the file holds.
abbrev pub next_token : Option (Option SessionFile) → ℕ
next_token none = 1
next_token (some none) = 1
next_token (some (some sf)) = if ltb 0 sf.fencing_token then (sf.fencing_token + 1) % 2 ^ 64 else 1

abbrev pub session_of : Process → ℕ → SessionFile
session_of p token = record {
  lease_id = p.lease_id;
  fencing_token = token;
  pid = p.pid;
  addr = "127.0.0.1:0";
  token = p.token;
  session_id = "";
}

-- The flock of the file that a lease holds is given back.
abbrev pub drop_lock : Lease → World → World
drop_lock l w = if l.held then change_entry l.repo_name (set_locked false) w else w

abbrev pub hold : String → Process → ℕ → World → World
hold repo p token w = record (drop_lock w.lease w) {
  lease = record { held = true; lease_id = p.lease_id; fencing_token = token; repo_name = repo };
}

abbrev pub ttl_of : Option ℕ → ℕ
ttl_of none = 10000
ttl_of (some t) = t

abbrev pub grant_of : Process → AcquireRequest → ℕ → Grant
grant_of p req token = record {
  granted = true;
  lease_id = p.lease_id;
  fencing_token = token;
  expires_at = p.now + ttl_of req.ttl;
}

-- The session is written: the handler keeps the file.
abbrev pub adopt : Process → AcquireRequest → String → ℕ → Unit {0} → Exec World Grant
adopt p req repo token _ w = (ok (grant_of p req token), hold repo p token w)

-- Acquire from the point on where the lock is held.
abbrev pub grant_locked : Process → AcquireRequest → String → ℕ → Exec World Grant
grant_locked p req repo token = write_session repo (session_of p token) >>= adopt p req repo token

-- Acquire from the opened file on: a locked file is EWOULDBLOCK.
abbrev pub try_lock : Process → AcquireRequest → String → Exec World Grant
try_lock p req repo w =
    if (w.host.files repo).locked
    then (ok no_grant, w)
    else grant_locked p req repo (next_token (w.host.files repo).content)
        (change_entry repo (set_locked true) w)

abbrev pub repo_of : Process → AcquireRequest → String
repo_of p req = if req.repo_name == "" then p.resolved else req.repo_name

-- The calls that may fail are ConfigPath, OpenFile, and Flock.
unfoldable pub acquire : Process → AcquireRequest → Exec World Grant
acquire p req =
    let repo = repo_of p req in
    if repo == ""
    then raise (message "cannot resolve repository name for lease scope")
    else do attempt; attempt; modify (change_entry repo created); attempt; try_lock p req repo

abbrev pub is_current : Lease → String → Bool
is_current l lease_id = l.held && not (l.lease_id == "") && l.lease_id == lease_id

unfoldable pub renew : Process → String → Exec World Grant
renew p lease_id w =
    if is_current w.lease lease_id
    then (
      ok (record {
        granted = true;
        lease_id = w.lease.lease_id;
        fencing_token = w.lease.fencing_token;
        expires_at = p.now + 10000;
      }),
      w,
    )
    else (ok no_grant, w)

abbrev pub removed : Entry → Entry
removed e = record { content = none; locked = false }

-- os.Remove of the session file, whose error is dropped
abbrev pub remove_file : String → World → World
remove_file repo w =
    if repo == ""
    then w
    else if faulty w.host.faults
    then skip_fault w
    else skip_fault (change_entry repo removed w)

-- Release up to the close of the file: other processes may lock it from here on.
abbrev pub unlock_file : World → World
unlock_file w = record (drop_lock w.lease w) { lease = record w.lease { held = false } }

-- the rest of Release: the file that stands at the path then is removed, whoever has locked it
abbrev pub unlink_file : World → World
unlink_file w = record (remove_file w.lease.repo_name w) { lease = new_lease }

-- Release, when no other process comes between its two parts
unfoldable pub release : String → Exec World (Unit {0})
release lease_id w =
    if is_current w.lease lease_id then (ok tt, unlink_file (unlock_file w)) else (ok tt, w)

-- Close, which the death of the process does as well: the file stays.
unfoldable pub close : Exec World (Unit {0})
close w =
    if w.lease.held
    then (
      ok tt,
      record (drop_lock w.lease w) {
        lease = record w.lease { held = false; lease_id = ""; fencing_token = 0 };
      },
    )
    else (ok tt, w)

abbrev pub endpoint_of : Process → Lease → String → String → String → SessionFile
endpoint_of p l addr token session_id = record {
  lease_id = l.lease_id;
  fencing_token = l.fencing_token;
  pid = p.pid;
  addr = addr;
  token = token;
  session_id = session_id;
}

abbrev pub rewrite_session : String → SessionFile → Exec World (Unit {0})
rewrite_session repo sf = do
  attempt
  attempt
  modify (change_entry repo (set_content none))
  attempt
  modify (change_entry repo (set_content (some sf)))
  attempt

unfoldable pub set_endpoint : Process → String → String → String → Exec World (Unit {0})
set_endpoint p addr token session_id w =
    if w.lease.held
    then rewrite_session w.lease.repo_name (endpoint_of p w.lease addr token session_id) w
    else (err (message "lease not held"), w)
