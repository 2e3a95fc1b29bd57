-- ===== src/FamConfig/Fam.antt =====
-- internal/famconfig: the names derived from a fam's registry (derive.go), its feature flags
-- (famconfig.go) and the name of an actor (resolve.go).
use Prim.Native.String.{◌++◌ as append}
use botfam.Base.{
  ℕ, String, Bool, true, false, not, ◌&&◌, ◌||◌, Option, none, some, List, [], ◌∷◌, ◌++◌, ◌==◌, leb,
  nat_eq, if◌then◌else◌, message, Result, ok, err, any, or_else,
}
use botfam.Base.Text.{trim_space}
use botfam.Base.Runes.{all_chars, runes}
use botfam.Base.Affixes.{cut_prefix}

-- the fields of Registry that name branches and directories
pub record Registry : Type 0 where
  pub name : String
  pub slug : String
  pub branch : String
  pub integration_branch : String
  pub release_branch : String

unfoldable pub fam_slug : Registry → String
fam_slug reg = if not (reg.slug == "") then reg.slug else reg.name

unfoldable pub fam_branch : Registry → String
unfolding fam_slug
fam_branch reg =
    if not (reg.integration_branch == "")
    then reg.integration_branch
    else if not (reg.branch == "")
    then reg.branch
    else if not (fam_slug reg == "")
    then append (fam_slug reg) "-next"
    else "botfam-next"

unfoldable pub fam_release_branch : Registry → String
fam_release_branch reg = if not (reg.release_branch == "") then reg.release_branch else "main"

unfoldable pub fam_ledger_dir_name : Registry → String
unfolding fam_slug
fam_ledger_dir_name reg =
    if not (fam_slug reg == "") then append (fam_slug reg) "-collab" else "botfam-collab"

-- A flag's value: a number by whether it is zero, and `other` for a type that is not supported.
pub data FlagValue : Type 0 where
  bool : Bool → FlagValue
  number : Bool → FlagValue
  string : String → FlagValue
  other : FlagValue

-- the case string of parseFlagBool, in small letters and without spaces
flag_word : String → Result Bool
unfolding any
flag_word s =
    if any (λ w. s == w) ("1" ∷ "true" ∷ "t" ∷ "on" ∷ "yes" ∷ "y" ∷ [])
    then ok true
    else if any (λ w. s == w) ("0" ∷ "false" ∷ "f" ∷ "off" ∷ "no" ∷ "n" ∷ [])
    then ok false
    else err (message "not a boolean")

unfoldable pub parse_flag_bool : (String → String) → FlagValue → Result Bool
unfolding flag_word trim_space
parse_flag_bool to_lower (bool b) = ok b
parse_flag_bool to_lower (number zeroed) = ok (not zeroed)
parse_flag_bool to_lower (string s) = flag_word (to_lower (trim_space s))
parse_flag_bool to_lower other = err (message "unsupported flag type")

-- a table of flags: a Go map
abbrev pub Flags : Type 0
Flags = String → Option FlagValue

-- ResolveFlags: the flags of the fam, and those of the agent, if there is such an agent
unfoldable pub resolve_flags : Flags → (String → Option Flags) → String → Flags
resolve_flags flags agents actor name = elim (agents actor) [
  | none ↦ flags name
  | some own ↦ or_else (own name) (flags name)
]

-- flagValue: the default comes back beside an error
flag_or : (String → String) → Bool → Option FlagValue → Result Bool × Bool
unfolding parse_flag_bool
flag_or to_lower default none = (ok default, default)
flag_or to_lower default (some v) = elim (parse_flag_bool to_lower v) [
  | ok b ↦ (ok b, b)
  | err e ↦ (err e, default)
]

unfoldable pub flag_value : (String → String) → Flags → String → Bool → Result Bool × Bool
unfolding flag_or
flag_value to_lower flags name default = flag_or to_lower default (flags name)

-- FlagEnabled
unfoldable pub flag_enabled :
    (String → String)
    → Flags
    → (String → Option Flags)
    → String
    → String
    → Bool
    → Result Bool × Bool
unfolding flag_value resolve_flags
flag_enabled to_lower flags agents actor name default =
    flag_value to_lower (resolve_flags flags agents actor) name default

is_actor_char : ℕ → Bool
is_actor_char r =
    (leb 97 r && leb r 122)
    || (leb 65 r && leb r 90)
    || (leb 48 r && leb r 57)
    || nat_eq r 95
    || nat_eq r 45

-- validateName(name) == nil; a name of these characters has as many bytes as runes
unfoldable pub valid_name : String → Bool
unfolding all_chars runes is_actor_char
valid_name name = not (name == "") && leb (runes name) 64 && all_chars is_actor_char name

first_prefix : List String → String → Option String
unfolding cut_prefix
first_prefix [] base = none
first_prefix (p ∷ prefixes) base = elim (cut_prefix p base) [
  | some rest ↦ some rest
  | none ↦ first_prefix prefixes base
]

checked_actor : Option String → String
unfolding valid_name
checked_actor none = ""
checked_actor (some actor) = if valid_name actor then actor else ""

-- ParseActor
unfoldable pub parse_actor : String → String → String
unfolding first_prefix checked_actor
parse_actor base repo_name =
    let own =
      if not (repo_name == "")
      then append "wt-" (append repo_name "-") ∷ append repo_name "-" ∷ []
      else [] in
    checked_actor (first_prefix (own ++ "wt-" ∷ "botfam-" ∷ []) base)
