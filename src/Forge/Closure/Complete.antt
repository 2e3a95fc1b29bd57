-- ===== src/Forge/Closure/Complete.antt =====
-- internal/forge/scope.go: the loop ends, with exactly what the epic reaches.
use mathlib.Core.Path.{subst}
use botfam.Base.{
  length-filter-le, ℕ, zero, suc, ◌+◌, ◌≤◌, ◌<◌, ◌≡◌, refl, sym, ◌↔◌, inl, inr, true, false, not,
  ◌||◌, false≢true, some, List, [], ◌∷◌, ◌++◌, append-nil, arith, nat_eq_iff, Bool-cases, length,
  any, filter, length-append,
}
use botfam.Forge.Closure.{has, collect, Reach, Inv, Inv-pop, Inv-push}

module _ (children : ℕ → List ℕ) (root : ℕ) (budget : List ℕ → ℕ)
    (spend : (n : ℕ) (seen : List ℕ)
      → has n seen ≡ false
      → budget (n ∷ seen) + length (children n) ≤ budget seen) where
  collect-Inv :
      (rounds : ℕ) (queue seen : List ℕ)
      → length queue + budget seen < rounds
      → Inv children root queue seen
      → (r : List ℕ) × ((collect children rounds queue seen ≡ some r) × Inv children root [] r)
  unfolding collect
  collect-Inv zero queue seen h i = absurd (omega (arith, h))
  collect-Inv (suc rounds) [] seen h i = (seen, (refl, i))
  collect-Inv (suc rounds) (n ∷ queue) seen h i = elim (Bool-cases (has n seen)) [
    | inl e ↦
        rw (e, append-nil queue)
          (collect-Inv rounds queue seen (omega (arith, h))
            (Inv-pop children root n queue seen i e))
    | inr e ↦ rw e (
        let found = filter (λ ref. not (has ref (n ∷ seen))) (children n) in
        collect-Inv rounds (queue ++ found) (n ∷ seen)
          (omega (
            arith,
            h,
            length-append queue found,
            spend n seen e,
            length-filter-le (λ ref. not (has ref (n ∷ seen))) (children n),
          ))
          (Inv-push children root n queue seen i))
  ]

  drained : (n : ℕ) (r : List ℕ) → (has n r || has n []) ≡ true → has n r ≡ true
  unfolding has any
  drained n r h = ground (arith, h)

  reached : (r : List ℕ) → Inv children root [] r → (n : ℕ) → Reach children root n → has n r ≡ true
  unfolding Inv
  reached r i n Reach.here = drained root r i.2
  reached r i n (Reach.below m k t h) = drained n r (i.1 m n (reached r i m t) h)

  starts : Inv children root (root ∷ []) []
  unfolding Inv has any
  starts = (
    (λ n h.
        subst (λ k. Reach children root k) (sym ((nat_eq_iff n root).0 (ground (arith, h))))
          Reach.here),
    (λ m n hm hn. absurd (false≢true hm)),
    ground arith,
  )

  -- With fuel for the queue and the budget the loop ends, and what it collects is what the root reaches.
  pub collect-Reach :
      (rounds : ℕ)
      → 1 + budget [] < rounds
      → (r : List ℕ) × ((collect children rounds (root ∷ []) [] ≡ some r)
          × ((n : ℕ) → (has n r ≡ true) ↔ Reach children root n))
  unfolding Inv has any
  collect-Reach rounds h =
      let (r, (e, i)) = collect-Inv rounds (root ∷ []) [] (omega (arith, h)) starts in
      (r, (e, λ n. ((λ k. i.0 n k), reached r i n)))
