-- ===== src/Base/Runes.antt =====
-- Texts character by character: tests of every character, the number of runes, and `strings.Fields`.
use Prim.Native.Nat.{ℕ, zero, suc, ◌≤◌}
use Prim.Native.Char.{Char, code}
use Prim.Native.String.{String}
use Prim.Native.String.{◌++◌ as append}
use mathlib.Core.Bool.{Bool, true, false, not, ◌&&◌}
use mathlib.Core.List.{List, [], ◌∷◌}
use mathlib.Core.Logic.{inl, inr}
use mathlib.Core.Path.{◌≡◌, refl}
use native.Mathlib.Omega.{arith}
use text.Mathlib.TextLemmas.{cons-append, nil-append}
use text.Mathlib.Text.{◌==◌}
use botfam.Base.Tests.{if◌then◌else◌, Bool-cases}
use botfam.Base.Lists.{All}
use botfam.Base.Text.{is_space, trim_space, trim_left, trim_right, keep, join}

-- Does every character pass the test?
unfoldable pub all_chars : (ℕ → Bool) → String → Bool
all_chars p String.[] = true
all_chars p (String.◌∷◌ c s) = p (code c) && all_chars p s

-- utf8.RuneCountInString, the length of a []rune
unfoldable pub runes : String → ℕ
runes String.[] = 0
runes (String.◌∷◌ c s) = suc (runes s)

-- string([]rune(s)[:n])
unfoldable pub take_runes : ℕ → String → String
take_runes zero s = String.[]
take_runes (suc n) String.[] = String.[]
take_runes (suc n) (String.◌∷◌ c s) = String.◌∷◌ c (take_runes n s)

-- The characters that pass the test.
unfoldable pub keep_chars : (ℕ → Bool) → String → String
keep_chars p String.[] = String.[]
keep_chars p (String.◌∷◌ c s) =
    let rest = keep_chars p s in if p (code c) then String.◌∷◌ c rest else rest

-- A word in front of the words that follow it, unless it is empty.
close_word : String → List String → List String
close_word w ws = if w == "" then ws else w ∷ ws

-- the word that the text begins with, empty before a space, and the words after it
split_words : String → String × List String
unfolding is_space close_word
split_words String.[] = (String.[], [])
split_words (String.◌∷◌ c s) =
    let (w, ws) = split_words s in
    if is_space (code c) then (String.[], close_word w ws) else (String.◌∷◌ c w, ws)

-- strings.Fields
unfoldable pub fields : String → List String
unfolding split_words close_word
fields s = let (w, ws) = split_words s in close_word w ws

module _ (p : ℕ → Bool) where
  pub all_chars-append :
      (s t : String) → all_chars p (append s t) ≡ (all_chars p s && all_chars p t)
  unfolding all_chars
  all_chars-append String.[] t = rw (nil-append t) refl
  all_chars-append (String.◌∷◌ c s) t =
      rw (cons-append c s t) (ground (arith, all_chars-append s t))

  pub all_chars-take_runes :
      (n : ℕ) (s : String) → all_chars p s ≡ true → all_chars p (take_runes n s) ≡ true
  unfolding all_chars take_runes
  all_chars-take_runes zero s h = refl
  all_chars-take_runes (suc n) String.[] h = refl
  all_chars-take_runes (suc n) (String.◌∷◌ c s) h = ground (arith, all_chars-take_runes n s)

  pub all_chars-keep_chars : (s : String) → all_chars p (keep_chars p s) ≡ true
  unfolding all_chars keep_chars
  all_chars-keep_chars String.[] = refl
  all_chars-keep_chars (String.◌∷◌ c s) = ground (arith, all_chars-keep_chars s)

pub runes-take_runes-le : (n : ℕ) (s : String) → runes (take_runes n s) ≤ n
unfolding runes take_runes
runes-take_runes-le zero s = omega arith
runes-take_runes-le (suc n) String.[] = omega arith
runes-take_runes-le (suc n) (String.◌∷◌ c s) = omega (arith, runes-take_runes-le n s)

-- Does the text begin with something else than a space, if it is not empty?
unfoldable pub starts_clean : String → Bool
unfolding is_space
starts_clean String.[] = true
starts_clean (String.◌∷◌ c s) = not (is_space (code c))

starts_clean-trim_left : (s : String) → starts_clean (trim_left s) ≡ true
unfolding starts_clean trim_left
starts_clean-trim_left String.[] = refl
starts_clean-trim_left (String.◌∷◌ c s) = elim (Bool-cases (is_space (code c))) [
  | inl e ↦ rw e (starts_clean-trim_left s)
  | inr e ↦ rw (e, e) refl
]

starts_clean-keep :
    (c : Char) (s : String) → is_space (code c) ≡ false → starts_clean (keep c s) ≡ true
unfolding starts_clean keep
starts_clean-keep c String.[] h = rw (h, h) refl
starts_clean-keep c (String.◌∷◌ d s) h = rw h refl

starts_clean-trim_right : (s : String) → starts_clean s ≡ true → starts_clean (trim_right s) ≡ true
unfolding starts_clean trim_right
starts_clean-trim_right String.[] h = refl
starts_clean-trim_right (String.◌∷◌ c s) h = starts_clean-keep c (trim_right s) (ground arith)

pub starts_clean-trim_space : (s : String) → starts_clean (trim_space s) ≡ true
unfolding trim_space
starts_clean-trim_space s = starts_clean-trim_right (trim_left s) (starts_clean-trim_left s)

pub starts_clean-take_runes :
    (n : ℕ) (s : String) → starts_clean s ≡ true → starts_clean (take_runes n s) ≡ true
unfolding starts_clean take_runes
starts_clean-take_runes zero s h = refl
starts_clean-take_runes (suc n) String.[] h = refl
starts_clean-take_runes (suc n) (String.◌∷◌ c s) h = h

module _ (p : ℕ → Bool) where
  all_chars-keep :
      (c : Char) (s : String)
      → p (code c) ≡ true
      → all_chars p s ≡ true
      → all_chars p (keep c s) ≡ true
  unfolding all_chars keep
  all_chars-keep c String.[] hc h = elim (Bool-cases (is_space (code c))) [
    | inl e ↦ rw e refl
    | inr e ↦ rw (e, hc) refl
  ]
  all_chars-keep c (String.◌∷◌ d s) hc h = rw hc h

  all_chars-trim_left : (s : String) → all_chars p s ≡ true → all_chars p (trim_left s) ≡ true
  unfolding all_chars trim_left
  all_chars-trim_left String.[] h = refl
  all_chars-trim_left (String.◌∷◌ c s) h = ground (arith, all_chars-trim_left s)

  all_chars-trim_right : (s : String) → all_chars p s ≡ true → all_chars p (trim_right s) ≡ true
  unfolding all_chars trim_right
  all_chars-trim_right String.[] h = refl
  all_chars-trim_right (String.◌∷◌ c s) h =
      all_chars-keep c (trim_right s) (ground arith) (all_chars-trim_right s (ground arith))

  pub all_chars-trim_space : (s : String) → all_chars p s ≡ true → all_chars p (trim_space s) ≡ true
  unfolding trim_space
  all_chars-trim_space s h = all_chars-trim_right (trim_left s) (all_chars-trim_left s h)

  All-close_word :
      (w : String) (ws : List String)
      → all_chars p w ≡ true
      → All (λ v. all_chars p v ≡ true) ws
      → All (λ v. all_chars p v ≡ true) (close_word w ws)
  unfolding close_word
  All-close_word w ws hw h = elim (Bool-cases (w == "")) [ inl e ↦ rw e h | inr e ↦ rw e (hw, h) ]

  all_chars-split_words :
      (s : String)
      → all_chars p s ≡ true
      → (all_chars p (split_words s).0 ≡ true) × All (λ v. all_chars p v ≡ true) (split_words s).1
  unfolding all_chars split_words
  all_chars-split_words String.[] h = (refl, tt)
  all_chars-split_words (String.◌∷◌ c s) h =
      let ih = all_chars-split_words s (ground arith) in
      elim (Bool-cases (is_space (code c))) [
        | inl e ↦ rw e (refl, All-close_word (split_words s).0 (split_words s).1 ih.0 ih.1)
        | inr e ↦ rw e (ground arith, ih.1)
      ]

  all_chars-fields :
      (s : String) → all_chars p s ≡ true → All (λ v. all_chars p v ≡ true) (fields s)
  unfolding fields
  all_chars-fields s h =
      let hs = all_chars-split_words s h in
      All-close_word (split_words s).0 (split_words s).1 hs.0 hs.1

  all_chars-join :
      (sep : String) (ws : List String)
      → all_chars p sep ≡ true
      → All (λ v. all_chars p v ≡ true) ws
      → all_chars p (join sep ws) ≡ true
  unfolding join all_chars
  all_chars-join sep [] hs h = refl
  all_chars-join sep (w ∷ []) hs h = h.0
  all_chars-join sep (w ∷ v ∷ ws) hs h =
      rw
        (
          all_chars-append p w (append sep (join sep (v ∷ ws))),
          all_chars-append p sep (join sep (v ∷ ws)),
        )
        (ground (arith, hs, h.0, all_chars-join sep (v ∷ ws) hs h.1))

  pub all_chars-join-fields :
      (sep s : String)
      → all_chars p sep ≡ true
      → all_chars p s ≡ true
      → all_chars p (join sep (fields s)) ≡ true
  all_chars-join-fields sep s hs h = all_chars-join sep (fields s) hs (all_chars-fields s h)

fields_test : fields "  ab c d " ≡ "ab" ∷ "c" ∷ "d" ∷ []
unfolding fields
fields_test = refl
