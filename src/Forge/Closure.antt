-- ===== src/Forge/Closure.antt =====
-- internal/forge/scope.go: the loop of SelectIssues that collects the closure of an epic.
pub mod Complete
use Prim.Native.Char.{Char, code}
use Prim.Native.String.{◌++◌ as append}
use text.Mathlib.TextLemmas.{
  cons-append, nil-append, append-nil as text_append-nil, append_assoc as text_append_assoc,
}
use mathlib.Core.Path.{subst}
use botfam.Base.{
  ℕ, zero, suc, ◌+◌, ◌-◌, ◌*◌, ◌/◌, ◌%◌, ◌^◌, ◌≤◌, ◌<◌, String, ◌≡◌, refl, sym, ap, ◌∙◌, fun_ext,
  ◌≢◌, ◌↔◌, ◌⊎◌, inl, inr, Bool, true, false, not, ◌&&◌, ◌||◌, false≢true, Option, none, some, List,
  [], ◌∷◌, ◌++◌, map, append-nil, append_assoc, arith, ◌==◌, eq_iff, eq_refl, ltb, leb, nat_eq,
  if◌then◌else◌, ltb→lt, nat_eq_iff, Bool-cases, Option-cases, Error, engine, message, Result, ok,
  err, Exec, pure, raise, continue, ◌>>=◌, ◌>>◌, ignore, Result-cases, length, any, find, filter,
  update, length-append, any-append, is_some, or_else, or_default, any-find, All, All-append,
}
use botfam.Base.Text.{is_space, trim_space, is_blank, join, digit, format_int}
use botfam.Base.Runes.{
  all_chars, runes, take_runes, keep_chars, fields, all_chars-append, all_chars-take_runes,
  all_chars-keep_chars, runes-take_runes-le, all_chars-trim_space, all_chars-join-fields,
  starts_clean, starts_clean-trim_space, starts_clean-take_runes,
}
use botfam.Base.Numerals.{
  ℤ, is_positive, parse_int, format_integer, parse_int-format_int, max_int64,
}

-- a set of numbers: the map[int]bool of Go
unfoldable pub has : ℕ → List ℕ → Bool
unfolding any
has n ns = any (nat_eq n) ns

module _ (children : ℕ → List ℕ) where
  -- The queue and the numbers seen; each round of the loop takes one from the fuel, and none stands
  -- for a loop that has not ended.
  unfoldable pub collect : ℕ → List ℕ → List ℕ → Option (List ℕ)
  unfolding has filter
  collect zero queue seen = none
  collect (suc rounds) [] seen = some seen
  collect (suc rounds) (n ∷ queue) seen =
      let seen' = if has n seen then seen else n ∷ seen in
      let found = if has n seen then [] else filter (λ ref. not (has ref seen')) (children n) in
      collect rounds (queue ++ found) seen'

  -- The numbers that an epic reaches through the children.
  pub data Reach (root : ℕ) : ℕ → Type 0 where
    here : Reach root root
    below : (m n : ℕ) → Reach root m → has n (children m) ≡ true → Reach root n

  has-append : (n : ℕ) (xs ys : List ℕ) → has n (xs ++ ys) ≡ (has n xs || has n ys)
  unfolding has
  has-append n xs ys = any-append (nat_eq n) xs ys

  has-unseen :
      (n : ℕ) (seen xs : List ℕ)
      → has n xs ≡ true
      → (has n seen || has n (filter (λ ref. not (has ref seen)) xs)) ≡ true
  unfolding has any filter
  has-unseen n seen [] h = absurd (false≢true h)
  has-unseen n seen (x ∷ xs) h = elim (Bool-cases (nat_eq n x)) [
    | inl e ↦ ground (arith, e, ap (λ k. any (nat_eq k) seen) ((nat_eq_iff n x).0 e))
    | inr e ↦ ground (arith, e, has-unseen n seen xs)
  ]

  has-filter : (p : ℕ → Bool) (n : ℕ) (xs : List ℕ) → has n (filter p xs) ≡ true → has n xs ≡ true
  unfolding has any filter
  has-filter p n [] h = h
  has-filter p n (x ∷ xs) h = elim (Bool-cases (p x)) [
    | inl e ↦ ground (arith, e, has-filter p n xs)
    | inr e ↦ ground (arith, e, has-filter p n xs)
  ]

  or-pop :
      (k n : ℕ) (queue seen : List ℕ)
      → (has k queue || has k seen) ≡ true
      → (has k (n ∷ queue) || has k seen) ≡ true
  unfolding has any
  or-pop k n queue seen h = ground (arith, h)

  unpop :
      (k n : ℕ) (queue seen : List ℕ)
      → has n seen ≡ true
      → (has k seen || has k (n ∷ queue)) ≡ true
      → (has k seen || has k queue) ≡ true
  unfolding has any
  unpop k n queue seen hn h = elim (Bool-cases (nat_eq k n)) [
    | inl e ↦ ground (arith, hn, ap (λ k. any (nat_eq k) seen) ((nat_eq_iff k n).0 e))
    | inr e ↦ ground (arith, e, h)
  ]

  has-head : (n : ℕ) (queue seen : List ℕ) → (has n (n ∷ queue) || has n seen) ≡ true
  unfolding has any
  has-head n queue seen = ground arith

  has-tail :
      (m n : ℕ) (seen : List ℕ) → nat_eq m n ≡ false → has m (n ∷ seen) ≡ true → has m seen ≡ true
  unfolding has any
  has-tail m n seen e h = ground (arith, e, h)

  split-push :
      (k n : ℕ) (queue seen found : List ℕ)
      → (has k (queue ++ found) || has k (n ∷ seen)) ≡ true
      → ((has k (n ∷ queue) || has k seen) ≡ true) ⊎ (has k found ≡ true)
  unfolding has any
  split-push k n queue seen found h = elim (Bool-cases (has k found)) [
    | inl e ↦ inr e
    | inr e ↦ inl (ground (arith, h, e, has-append k queue found))
  ]

  push-found :
      (k n : ℕ) (queue seen found : List ℕ)
      → (has k (n ∷ seen) || has k found) ≡ true
      → (has k (n ∷ seen) || has k (queue ++ found)) ≡ true
  unfolding has any
  push-found k n queue seen found h = ground (arith, h, has-append k queue found)

  push-keeps :
      (k n : ℕ) (queue seen found : List ℕ)
      → (has k seen || has k (n ∷ queue)) ≡ true
      → (has k (n ∷ seen) || has k (queue ++ found)) ≡ true
  unfolding has any
  push-keeps k n queue seen found h = ground (arith, h, has-append k queue found)

  module _ (root : ℕ) where
    -- What holds between the rounds: all is reached; what was seen has its children seen or in the
    -- queue; the root is seen or in the queue.
    unfoldable pub Inv : List ℕ → List ℕ → Type 0
    Inv queue seen =
        ((n : ℕ) → (has n queue || has n seen) ≡ true → Reach root n)
        × ((m n : ℕ)
            → has m seen ≡ true
            → has n (children m) ≡ true
            → (has n seen || has n queue) ≡ true)
        × ((has root seen || has root queue) ≡ true)

    pub Inv-pop :
        (n : ℕ) (queue seen : List ℕ) → Inv (n ∷ queue) seen → has n seen ≡ true → Inv queue seen
    unfolding Inv
    Inv-pop n queue seen i h = (
      (λ k hk. i.0 k (or-pop k n queue seen hk)),
      (λ m k hm hk. unpop k n queue seen h (i.1 m k hm hk)),
      unpop root n queue seen h i.2,
    )

    pub Inv-push :
        (n : ℕ) (queue seen : List ℕ)
        → Inv (n ∷ queue) seen
        → Inv (queue ++ filter (λ ref. not (has ref (n ∷ seen))) (children n)) (n ∷ seen)
    unfolding Inv
    Inv-push n queue seen i =
        let found = filter (λ ref. not (has ref (n ∷ seen))) (children n) in
        (
          (λ k hk. elim (split-push k n queue seen found hk) [
            | inl hq ↦ i.0 k hq
            | inr hf ↦
                below n k (i.0 n (has-head n queue seen))
                  (has-filter (λ ref. not (has ref (n ∷ seen))) k (children n) hf)
          ]),
          (λ m k hm hk. elim (Bool-cases (nat_eq m n)) [
            | inl e ↦ push-found k n queue seen found (
                has-unseen k (n ∷ seen) (children n)
                  (subst (λ m. has k (children m) ≡ true) ((nat_eq_iff m n).0 e) hk))
            | inr e ↦ push-keeps k n queue seen found (i.1 m k (has-tail m n seen e hm) hk)
          ]),
          push-keeps root n queue seen found i.2,
        )
