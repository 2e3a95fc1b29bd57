-- ===== src/Ingest/Poll/Sorted.antt =====
-- internal/ingest/forge.go: the order in which a poll takes the notifications.
use mathlib.Core.List.Perm
use botfam.Base.{Perm, ℕ, ◌≤◌, inl, inr, Bool, List, [], ◌∷◌, arith, ltb, Bool-cases, filter, All}
use botfam.Base.Permuted.{filter-insert-perm, filter-cons-perm}
use botfam.Mailbox.Message.{Times}
use botfam.Ingest.{Notification}
use botfam.Ingest.Poll.{forge_updated_unix, sort_updated, insert_updated}

module _ {Time : Type 0} (times : Times Time) (unix : Time → ℕ) where
  abbrev NotBefore : ℕ → List Notification → Type 0
  NotBefore t ns = All (λ n. t ≤ forge_updated_unix times unix n) ns

  -- Each notification was updated no later than those after it.
  unfoldable pub IsByUpdate : List Notification → Type 0
  IsByUpdate [] = Unit
  IsByUpdate (n ∷ ns) = NotBefore (forge_updated_unix times unix n) ns × IsByUpdate ns

  weaken : (t u : ℕ) (ns : List Notification) → t ≤ u → NotBefore u ns → NotBefore t ns
  weaken t u [] l h = tt
  weaken t u (n ∷ ns) l h = (omega (arith, l, h.0), weaken t u ns l h.1)

  insert-NotBefore :
      (t : ℕ) (x : Notification) (ns : List Notification)
      → t ≤ forge_updated_unix times unix x
      → NotBefore t ns
      → NotBefore t (insert_updated times unix x ns)
  unfolding insert_updated
  insert-NotBefore t x [] l h = (l, tt)
  insert-NotBefore t x (y ∷ ys) l h =
      elim (Bool-cases (ltb (forge_updated_unix times unix y) (forge_updated_unix times unix x))) [
        | inl e ↦ rw e (h.0, insert-NotBefore t x ys l h.1)
        | inr e ↦ rw e (l, h)
      ]

  insert-IsByUpdate :
      (x : Notification) (ns : List Notification)
      → IsByUpdate ns
      → IsByUpdate (insert_updated times unix x ns)
  unfolding insert_updated IsByUpdate
  insert-IsByUpdate x [] h = (tt, tt)
  insert-IsByUpdate x (y ∷ ys) h =
      let u = forge_updated_unix times unix x in
      let v = forge_updated_unix times unix y in
      elim (Bool-cases (ltb v u)) [
        | inl e ↦ rw e (insert-NotBefore v x ys (ground (arith, e)) h.0, insert-IsByUpdate x ys h.1)
        | inr e ↦ let l : u ≤ v = ground (arith, e) in rw e ((l, weaken u v ys l h.0), h)
      ]

  sort-IsByUpdate : (ns : List Notification) → IsByUpdate (sort_updated times unix ns)
  unfolding sort_updated IsByUpdate
  sort-IsByUpdate [] = tt
  sort-IsByUpdate (n ∷ ns) = insert-IsByUpdate n (sort_updated times unix ns) (sort-IsByUpdate ns)

  module _ (p : Notification → Bool) where
    filter-NotBefore : (t : ℕ) (ns : List Notification) → NotBefore t ns → NotBefore t (filter p ns)
    unfolding filter
    filter-NotBefore t [] h = tt
    filter-NotBefore t (n ∷ ns) h = elim (Bool-cases (p n)) [
      | inl e ↦ rw e (h.0, filter-NotBefore t ns h.1)
      | inr e ↦ rw e (filter-NotBefore t ns h.1)
    ]

    filter-IsByUpdate : (ns : List Notification) → IsByUpdate ns → IsByUpdate (filter p ns)
    unfolding filter IsByUpdate
    filter-IsByUpdate [] h = tt
    filter-IsByUpdate (n ∷ ns) h = elim (Bool-cases (p n)) [
      | inl e ↦
          rw e (filter-NotBefore (forge_updated_unix times unix n) ns h.0, filter-IsByUpdate ns h.1)
      | inr e ↦ rw e (filter-IsByUpdate ns h.1)
    ]

    -- what the sort leaves of those that pass a test: in order, and each as often as before
    pub sorted-IsByUpdate :
        (ns : List Notification) → IsByUpdate (filter p (sort_updated times unix ns))
    sorted-IsByUpdate ns = filter-IsByUpdate (sort_updated times unix ns) (sort-IsByUpdate ns)

    insert-perm :
        (x : Notification) (ns : List Notification)
        → Perm (filter p (insert_updated times unix x ns)) (filter p (x ∷ ns))
    unfolding insert_updated
    insert-perm x [] = Perm.rfl
    insert-perm x (y ∷ ys) =
        filter-insert-perm p
          (ltb (forge_updated_unix times unix y) (forge_updated_unix times unix x)) x y ys
          (insert_updated times unix x ys) (insert-perm x ys)

    pub sorted-perm :
        (ns : List Notification) → Perm (filter p (sort_updated times unix ns)) (filter p ns)
    unfolding sort_updated
    sorted-perm [] = Perm.rfl
    sorted-perm (n ∷ ns) =
        Perm.trans (insert-perm n (sort_updated times unix ns))
          (filter-cons-perm p n (sort_updated times unix ns) ns (sorted-perm ns))
