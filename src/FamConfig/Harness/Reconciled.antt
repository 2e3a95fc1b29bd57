-- ===== src/FamConfig/Harness/Reconciled.antt =====
-- internal/famconfig/harness.go: the resolution of a harness.
use botfam.Base.{
  String, ◌≡◌, refl, sym, ◌∙◌, inl, inr, Bool, arith, [], ◌∷◌, eq_iff, true, false, not, ◌&&◌, List,
  ◌==◌, if◌then◌else◌, Bool-cases, any,
}
use botfam.Base.Affixes.{contains}
use botfam.Base.Text.{trim_space}
use mathlib.Core.Path.{subst}
use botfam.FamConfig.Harness.{
  harness_claude_code, harness_codex, harness_antigravity, claude_code_spec, codex_spec,
  antigravity_spec, HarnessSpec, HarnessResolution, harness_registry, first_harness, is_named,
  canonical_harness, detect_harness_from_env, detect_harness_from_client_name, detected_harness,
  resolve_harness, present,
}

-- the one spelling of a harness that is not its canonical name
abbrev pub folded : String → String
folded declared = if declared == "claude" then "claude-code" else declared

abbrev pub known_harnesses : List String
known_harnesses = "" ∷ "claude-code" ∷ "codex" ∷ "antigravity" ∷ []

unfoldable pub IsKnown : String → Type 0
IsKnown harness = any (λ h. harness == h) known_harnesses ≡ true

and-false : (a b : Bool) → false ≡ (not a && false && not b)
and-false true b = refl
and-false false b = refl

and-true : (a b : Bool) → (not a && not b) ≡ (not a && true && not b)
and-true true b = refl
and-true false b = refl

pick : (b : Bool) (x y : String) → IsKnown x → IsKnown y → IsKnown (if b then x else y)
pick true x y hx hy = hx
pick false x y hx hy = hy

no_harness : IsKnown ""
unfolding IsKnown any
no_harness = refl

first_harness-IsKnown : (p : HarnessSpec → Bool) → IsKnown (first_harness p harness_registry "")
unfolding first_harness IsKnown any
first_harness-IsKnown p =
    pick (p claude_code_spec) harness_claude_code
      (if p codex_spec
        then harness_codex
        else if p antigravity_spec
        then harness_antigravity
        else "")
      refl
      (pick (p codex_spec) harness_codex (if p antigravity_spec then harness_antigravity else "")
        refl (pick (p antigravity_spec) harness_antigravity "" refl refl))

at_name :
    (declared name : String)
    → canonical_harness name ≡ folded name
    → (declared == name) ≡ true
    → canonical_harness declared ≡ folded declared
at_name declared name h e =
    subst (λ d. canonical_harness d ≡ folded d) (sym ((eq_iff declared name).0 e)) h

canonical_harness-folded : (declared : String) → canonical_harness declared ≡ folded declared
unfolding canonical_harness first_harness is_named any
canonical_harness-folded declared = elim (Bool-cases (declared == "")) [
  | inl e ↦ at_name declared "" refl e
  | inr e0 ↦ elim (Bool-cases (declared == "claude-code")) [
    | inl e ↦ at_name declared "claude-code" refl e
    | inr e1 ↦ elim (Bool-cases (declared == "claude")) [
      | inl e ↦ at_name declared "claude" refl e
      | inr e2 ↦ elim (Bool-cases (declared == "codex")) [
        | inl e ↦ at_name declared "codex" refl e
        | inr e3 ↦ elim (Bool-cases (declared == "antigravity")) [
          | inl e ↦ at_name declared "antigravity" refl e
          | inr e4 ↦ rw (e0, e1, e2, e3, e4) refl
        ]
      ]
    ]
  ]
]

env-IsKnown : (environ : List String) → IsKnown (detect_harness_from_env environ)
unfolding detect_harness_from_env
env-IsKnown environ = first_harness-IsKnown (λ spec. any (present environ) spec.env_vars)

-- what the client tells, or else what the environment tells
abbrev told : String → String → String
told client env = if not (client == "") then client else env

told-chosen : (client env : String) → told client env ≡ (if client == "" then env else client)
told-chosen client env = ground arith

-- which of the three the effective harness comes from
abbrev pub source_of : String → String → String
source_of client env =
    if client == "" then (if env == "" then "declared" else "env") else "clientinfo"

told-none :
    (client env : String) → (told client env == "") ≡ true → source_of client env ≡ "declared"
told-none client env h = ground (arith, h)

told-some :
    (client env : String)
    → (told client env == "") ≡ false
    → source_of client env ≡ (if not (client == "") then "clientinfo" else "env")
told-some client env h = ground (arith, h)

told-IsKnown : (client env : String) → IsKnown client → IsKnown env → IsKnown (told client env)
told-IsKnown client env c e = pick (not (client == "")) client env c e

module _ (to_lower : String → String) where
  client_name-IsKnown :
      (client_name : String) → IsKnown (detect_harness_from_client_name to_lower client_name)
  unfolding detect_harness_from_client_name
  client_name-IsKnown client_name =
      let n = to_lower (trim_space client_name) in
      let p : HarnessSpec → Bool = λ spec. any (contains n) spec.client_name_substrings in
      pick (n == "") "" (first_harness p harness_registry "") no_harness (first_harness-IsKnown p)

  -- The declared name is folded, the name of the client goes before the environment, and what they
  -- tell goes before the declared name.
  pub record IsReconciled (declared client_name : String) (environ : List String)
      (r : HarnessResolution) : Type 0 where
    declared_folded : r.declared ≡ folded declared
    chosen :
        let client = detect_harness_from_client_name to_lower client_name in
        r.detected ≡ (if client == "" then detect_harness_from_env environ else client)
    known : IsKnown r.detected
    effective : r.effective ≡ (if r.detected == "" then r.declared else r.detected)
    source :
        r.source
        ≡ source_of
            (detect_harness_from_client_name to_lower client_name)
            (detect_harness_from_env environ)
    mismatch :
        r.mismatch
        ≡ (not (r.declared == "") && not (r.detected == "") && not (r.declared == r.detected))

  -- The resolution of a harness: the alias `claude` is folded onto its canonical name and every other declared
  -- name stays; what is detected, by the name of the client or else by the environment, is empty or a
  -- known harness, and wins over what is declared; the source says which of the three it was; and a
  -- mismatch is reported exactly if there are a declared and a detected harness and they differ.
  pub resolve_harness-IsReconciled :
      (declared client_name : String) (environ : List String)
      → IsReconciled declared client_name environ
          (resolve_harness to_lower declared client_name environ)
  unfolding resolve_harness detected_harness
  resolve_harness-IsReconciled declared client_name environ =
      let c = detect_harness_from_client_name to_lower client_name in
      let v = detect_harness_from_env environ in
      let f = canonical_harness-folded declared in
      elim (Bool-cases (told c v == "")) [
        | inl e ↦ rw e (record {
          declared_folded = f;
          chosen = sym ((eq_iff (told c v) "").0 e) ∙ told-chosen c v;
          known = no_harness;
          effective = refl;
          source = sym (told-none c v e);
          mismatch =
              and-false (canonical_harness declared == "") (canonical_harness declared == "");
        })
        | inr e ↦ rw e (record {
          declared_folded = f;
          chosen = told-chosen c v;
          known = told-IsKnown c v (client_name-IsKnown client_name) (env-IsKnown environ);
          effective = rw e refl;
          source = sym (told-some c v e);
          mismatch = rw e (
              and-true (canonical_harness declared == "") (canonical_harness declared == told c v));
        })
      ]
