-- ===== src/Store/Files.antt =====
-- WriteCompleteFile of internal/eventdelivery/store/artifacts.go, and EnsureSessionGitignore of store.go.
-- One path and the temporary file beside it; each I/O call takes the next entry of `faults`.
use botfam.Base.{
  Bool, false, List, [], ◌∷◌, ◌++◌, Option, none, some, String, ◌==◌, engine, Result, ok, err, Exec,
  ◌>>◌, if◌then◌else◌,
}
use botfam.Base.Text.{trim_space, join}
use botfam.Sql.{faulty, rest_of}

pub record Disk : Type 0 where
  pub content : Option String
  pub temporary : Option String
  pub faults : List Bool

abbrev pub skip_fault : Disk → Disk
skip_fault d = record d { faults = rest_of d.faults }

abbrev pub change : (Disk → Disk) → Exec Disk (Unit {0})
change f d = if faulty d.faults then (err engine, skip_fault d) else (ok tt, f (skip_fault d))

abbrev same_disk : Disk → Disk
same_disk d = d

abbrev rename : Disk → Disk
rename d = record d { content = d.temporary; temporary = none }

-- Write, Chmod, Sync, Close and Rename; a write that fails may leave any text in the temporary file.
unfoldable pub fill_and_rename : String → Exec Disk (Unit {0})
fill_and_rename text = do
  change (λ d. record d { temporary = some text })
  change same_disk
  change same_disk
  change same_disk
  change rename

-- the deferred os.Remove of the temporary file, whose error is dropped
abbrev pub remove_temporary : Result (Unit {0}) × Disk → Result (Unit {0}) × Disk
remove_temporary (ok u, d) = (ok u, d)
remove_temporary (err e, d) =
    if faulty d.faults
    then (err e, skip_fault d)
    else (err e, record (skip_fault d) { temporary = none })

abbrev pub cleaned : Exec Disk (Unit {0}) → Exec Disk (Unit {0})
cleaned m d = remove_temporary (m d)

-- WriteCompleteFile: MkdirAll, CreateTemp, the above, and fsyncDir
unfoldable pub write_complete_file : String → Exec Disk (Unit {0})
write_complete_file text = do
  change same_disk
  change (λ d. record d { temporary = some "" })
  cleaned (fill_and_rename text)
  change same_disk

-- SessionRepoGitignorePatterns
abbrev pub session_repo_patterns : List String
session_repo_patterns = "*.sock" ∷ "*.socket" ∷ "*.pid" ∷ "*.lock" ∷ "*.flock" ∷ []

unfoldable pub trimmed : List String → List String
trimmed [] = []
trimmed (p ∷ patterns) =
    let rest = trimmed patterns in if trim_space p == "" then rest else trim_space p ∷ rest

unfoldable pub gitignore_contents : List String → String
gitignore_contents extra =
    join "\n"
      (("session.db" ∷ "session.db-wal" ∷ "session.db-shm" ∷ []) ++ trimmed extra ++ "" ∷ [])

abbrev holds : String → Option String → Bool
holds s none = false
holds s (some t) = t == s

abbrev write_unless : String → Exec Disk (Unit {0})
write_unless contents d =
    if holds contents d.content then (ok tt, d) else write_complete_file contents d

-- EnsureSessionGitignore; the read may fail.
unfoldable pub ensure_session_gitignore : List String → Exec Disk (Unit {0})
ensure_session_gitignore extra = do change same_disk; write_unless (gitignore_contents extra)
