-- ===== src/Lease/Resolve.antt =====
-- internal/eventdelivery/singlehost/resolver.go, and LiveSupervisorPID of config.go. Whether a process
-- lives, which isProcessLive asks the operating system, is a parameter.
use botfam.Base.{
  ℕ, ◌≡◌, refl, Bool, true, false, Option, none, some, String, ◌==◌, engine, Result, ok, err,
  if◌then◌else◌,
}
use botfam.Lease.{SessionFile, Process, Entry, repo_of, AcquireRequest, World, Grant, acquire}
use botfam.Lease.Fencing.{acquire-IsFenced}

pub record SessionEndpoint : Type 0 where
  pub found : Bool
  pub address : String
  pub token : String
  pub session_id : String
  pub fencing_token : ℕ

abbrev pub not_found : SessionEndpoint
not_found = record { found = false; address = ""; token = ""; session_id = ""; fencing_token = 0 }

abbrev pub endpoint : SessionFile → SessionEndpoint
endpoint sf = record {
  found = true;
  address = sf.addr;
  token = sf.token;
  session_id = sf.lease_id;
  fencing_token = sf.fencing_token;
}

-- Resolve from what ReadFile and Unmarshal make of the file on: no file, no session, or a session.
abbrev pub resolve_content : (ℕ → Bool) → Option (Option SessionFile) → Result SessionEndpoint
resolve_content is_live none = ok not_found
resolve_content is_live (some none) = err engine
resolve_content is_live (some (some sf)) = if is_live sf.pid then ok (endpoint sf) else ok not_found

-- SessionResolver.Resolve, when ConfigPath and ReadFile report no other error
unfoldable pub resolve :
    (ℕ → Bool) → Process → AcquireRequest → (String → Entry) → Result SessionEndpoint
resolve is_live p scope files =
    if repo_of p scope == ""
    then ok not_found
    else resolve_content is_live (files (repo_of p scope)).content

abbrev supervisor_of : (ℕ → Bool) → Option (Option SessionFile) → Option (ℕ × String)
supervisor_of is_live none = none
supervisor_of is_live (some none) = none
supervisor_of is_live (some (some sf)) =
    if is_live sf.pid then some (sf.pid, sf.session_id) else none

-- LiveSupervisorPID; ConfigPath refuses the empty name.
unfoldable pub live_supervisor_pid : (ℕ → Bool) → String → (String → Entry) → Option (ℕ × String)
live_supervisor_pid is_live repo files =
    if repo == "" then none else supervisor_of is_live (files repo).content

-- Right after a process was granted the lease of a repository, before any other call, and while the
-- process lives, resolving the repository finds the placeholder address, the secret, the lease id and the fencing token of that grant.
pub grant_resolves :
    (p : Process) (req : AcquireRequest) (w : World) (g : Grant) (is_live : ℕ → Bool)
    → (acquire p req w).0 ≡ ok g
    → g.granted ≡ true
    → (repo_of p req == "") ≡ false
    → is_live p.pid ≡ true
    → resolve is_live p req (acquire p req w).1.host.files
      ≡ ok (record {
        found = true;
        address = "127.0.0.1:0";
        token = p.token;
        session_id = p.lease_id;
        fencing_token = g.fencing_token;
      })
unfolding resolve
grant_resolves p req w g is_live q t n l =
    let f = acquire-IsFenced p req w g q t in rw (n, f.file, l) refl
