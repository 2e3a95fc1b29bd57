-- ===== src/Forge/Scope/Epics.antt =====
-- internal/forge/scope.go: the scope of an epic is what its task lists reach.
use botfam.Base.{
  ℕ, ◌+◌, ◌≤◌, ◌<◌, ◌≡◌, refl, ap, ◌∙◌, ◌↔◌, inl, inr, true, false, none, some, List, [], ◌∷◌,
  arith, ltb, nat_eq, if◌then◌else◌, nat_eq_iff, Bool-cases, Option-cases, length, any,
}
use botfam.Forge.Closure.{has, Reach}
use botfam.Forge.Closure.Complete.{collect-Reach}
use botfam.Forge.Scope.{
  Issue, Scope, task_refs, by_num, refs_of, children_of, unseen_refs, epic_closure, select_issues,
}

cost : Issue → List ℕ → ℕ
cost i seen = if has i.index seen then 0 else length (task_refs i.body)

module _ (n : ℕ) (i : Issue) (issues : List Issue) where
  children-later :
      (j : Issue) → by_num issues n ≡ some j → children_of (i ∷ issues) n ≡ children_of issues n
  unfolding children_of by_num refs_of
  children-later j e = rw e refl

  children-here :
      by_num issues n ≡ none
      → nat_eq i.index n ≡ true
      → children_of (i ∷ issues) n ≡ task_refs i.body
  unfolding children_of by_num refs_of
  children-here e h = rw (e, h) refl

  children-none :
      by_num issues n ≡ none → nat_eq i.index n ≡ false → children_of (i ∷ issues) n ≡ []
  unfolding children_of by_num refs_of
  children-none e h = rw (e, h) refl

module _ (n : ℕ) (seen : List ℕ) (unseen : has n seen ≡ false) where
  cost-le : (i : Issue) → cost i (n ∷ seen) ≤ cost i seen
  unfolding cost has any
  cost-le i = ground arith

  has-index : (i : Issue) → nat_eq i.index n ≡ true → has i.index seen ≡ false
  has-index i e = ap (λ k. has k seen) ((nat_eq_iff i.index n).0 e) ∙ unseen

  cost-seen :
      (i : Issue)
      → nat_eq i.index n ≡ true
      → cost i (n ∷ seen) + length (task_refs i.body) ≤ cost i seen
  unfolding cost has any
  cost-seen i e = rw (e, has-index i e) (omega arith)

  cost-cons :
      (i : Issue) (issues : List Issue)
      → unseen_refs issues (n ∷ seen) + length (children_of issues n) ≤ unseen_refs issues seen
      → cost i (n ∷ seen) + unseen_refs issues (n ∷ seen) + length (children_of (i ∷ issues) n)
        ≤ cost i seen + unseen_refs issues seen
  cost-cons i issues h = elim (Option-cases (by_num issues n)) [
    | inr (j, e) ↦ rw (children-later n i issues j e) (omega (arith, h, cost-le i))
    | inl e ↦ elim (Bool-cases (nat_eq i.index n)) [
      | inl t ↦ rw (children-here n i issues e t) (omega (arith, h, cost-seen i t))
      | inr t ↦ rw (children-none n i issues e t) (omega (arith, h, cost-le i))
    ]
  ]

  unseen_refs-cons :
      (issues : List Issue)
      → unseen_refs issues (n ∷ seen) + length (children_of issues n) ≤ unseen_refs issues seen
  unfolding unseen_refs cost children_of by_num refs_of
  unseen_refs-cons [] = omega arith
  unseen_refs-cons (i ∷ issues) = cost-cons i issues (unseen_refs-cons issues)

positive_epic : (n : ℕ) → 0 < n → ltb 0 n ≡ true
positive_epic n h = ground (arith, h)

-- SelectIssues of a scope with an epic ends for all issues, and selects exactly the numbers that the task lists reach from it.
pub select_issues-Reach :
    (issues : List Issue) (sc : Scope)
    → 0 < sc.epic
    → (r : List ℕ) × ((select_issues issues sc ≡ some r)
        × ((n : ℕ) → (has n r ≡ true) ↔ Reach (children_of issues) sc.epic n))
unfolding select_issues epic_closure
select_issues-Reach issues sc h = rw (positive_epic sc.epic h) (
    collect-Reach (children_of issues) sc.epic (unseen_refs issues)
      (λ n seen unseen. unseen_refs-cons n seen unseen issues) (unseen_refs issues [] + 2)
      (omega arith))
