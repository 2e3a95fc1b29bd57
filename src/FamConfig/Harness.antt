-- ===== src/FamConfig/Harness.antt =====
-- internal/famconfig/harness.go: which harness an agent is declared to have, and which it runs under.
pub mod Reconciled
use Prim.Native.Char.{Char, code}
use Prim.Native.String.{◌++◌ as append}
use text.Mathlib.TextLemmas.{
  cons-append, nil-append, append-nil as text_append-nil, append_assoc as text_append_assoc,
}
use botfam.Base.{
  ℕ, zero, suc, ◌+◌, ◌-◌, ◌*◌, ◌/◌, ◌%◌, ◌^◌, ◌≤◌, ◌<◌, String, ◌≡◌, refl, sym, ap, ◌∙◌, fun_ext,
  ◌≢◌, ◌↔◌, ◌⊎◌, inl, inr, Bool, true, false, not, ◌&&◌, ◌||◌, false≢true, Option, none, some, List,
  [], ◌∷◌, ◌++◌, map, append-nil, append_assoc, arith, ◌==◌, eq_iff, eq_refl, ltb, leb, nat_eq,
  if◌then◌else◌, ltb→lt, nat_eq_iff, Bool-cases, Option-cases, Error, engine, message, Result, ok,
  err, Exec, pure, raise, continue, ◌>>=◌, ◌>>◌, ignore, Result-cases, length, any, find, filter,
  update, length-append, any-append, is_some, or_else, or_default, any-find, All, All-append,
}
use botfam.Base.Text.{is_space, trim_space, is_blank, join, digit, format_int}
use botfam.Base.Runes.{
  all_chars, runes, take_runes, keep_chars, fields, all_chars-append, all_chars-take_runes,
  all_chars-keep_chars, runes-take_runes-le, all_chars-trim_space, all_chars-join-fields,
  starts_clean, starts_clean-trim_space, starts_clean-take_runes,
}
use botfam.Base.Numerals.{
  ℤ, is_positive, parse_int, format_integer, parse_int-format_int, max_int64,
}
use botfam.Base.Affixes.{contains, cut_prefix}

pub record HarnessSpec : Type 0 where
  pub canonical : String
  pub aliases : List String
  pub env_vars : List String
  pub client_name_substrings : List String

abbrev pub harness_claude_code : String
harness_claude_code = "claude-code"

abbrev pub harness_codex : String
harness_codex = "codex"

abbrev pub harness_antigravity : String
harness_antigravity = "antigravity"

abbrev pub claude_code_spec : HarnessSpec
claude_code_spec = record {
  canonical = harness_claude_code;
  aliases = "claude" ∷ [];
  env_vars = "CLAUDECODE" ∷ "CLAUDE_CODE_ENTRYPOINT" ∷ [];
  client_name_substrings = "claude" ∷ [];
}

abbrev pub codex_spec : HarnessSpec
codex_spec = record {
  canonical = harness_codex;
  aliases = [];
  env_vars = [];
  client_name_substrings = "codex" ∷ [];
}

abbrev pub antigravity_spec : HarnessSpec
antigravity_spec = record {
  canonical = harness_antigravity;
  aliases = [];
  env_vars = [];
  client_name_substrings = "antigravity" ∷ "gemini" ∷ [];
}

abbrev pub harness_registry : List HarnessSpec
harness_registry = claude_code_spec ∷ codex_spec ∷ antigravity_spec ∷ []

-- the canonical name of the first harness that passes a test
unfoldable pub first_harness : (HarnessSpec → Bool) → List HarnessSpec → String → String
first_harness p [] otherwise = otherwise
first_harness p (spec ∷ specs) otherwise =
    let rest = first_harness p specs otherwise in if p spec then spec.canonical else rest

unfoldable pub is_named : String → HarnessSpec → Bool
unfolding any
is_named harness spec = harness == spec.canonical || any (λ a. harness == a) spec.aliases

-- CanonicalHarness
unfoldable pub canonical_harness : String → String
unfolding first_harness is_named
canonical_harness harness =
    if harness == "" then "" else first_harness (is_named harness) harness_registry harness

-- the closure present: the first variable of that name has a value
present : List String → String → Bool
unfolding cut_prefix
present [] key = false
present (kv ∷ environ) key = elim (cut_prefix (append key "=") kv) [
  | none ↦ present environ key
  | some v ↦ not (v == "")
]

-- DetectHarnessFromEnv
unfoldable pub detect_harness_from_env : List String → String
unfolding first_harness present any
detect_harness_from_env environ =
    first_harness (λ spec. any (present environ) spec.env_vars) harness_registry ""

-- HarnessResolution
pub record HarnessResolution : Type 0 where
  pub declared : String
  pub detected : String
  pub effective : String
  pub source : String
  pub mismatch : Bool

-- `to_lower` is strings.ToLower, with Go's tables of Unicode.
module _ (to_lower : String → String) where
  -- DetectHarnessFromClientName
  unfoldable pub detect_harness_from_client_name : String → String
  unfolding trim_space first_harness contains any
  detect_harness_from_client_name name =
      let n = to_lower (trim_space name) in
      if n == ""
      then ""
      else first_harness (λ spec. any (contains n) spec.client_name_substrings) harness_registry ""

  unfoldable pub detected_harness : String → List String → String
  unfolding detect_harness_from_client_name detect_harness_from_env
  detected_harness client_name environ =
      let h = detect_harness_from_client_name client_name in
      if not (h == "") then h else detect_harness_from_env environ

  -- ResolveHarness
  unfoldable pub resolve_harness : String → String → List String → HarnessResolution
  unfolding canonical_harness detected_harness detect_harness_from_client_name
  resolve_harness declared client_name environ =
      let canonical = canonical_harness declared in
      let detected = detected_harness client_name environ in
      if not (detected == "")
      then record {
        declared = canonical;
        detected = detected;
        effective = detected;
        source =
            if not (detect_harness_from_client_name client_name == "") then "clientinfo" else "env";
        mismatch = not (canonical == "") && not (canonical == detected);
      }
      else record {
        declared = canonical;
        detected = "";
        effective = canonical;
        source = "declared";
        mismatch = false;
      }
