-- ===== src/Mailbox/Spool/Ack.antt =====
-- internal/mailbox/spool.go: an acknowledged message moves from new/ to cur/, and nothing else does.
use mathlib.Core.Option.{none-ne-some}
use botfam.Base.{
  find-append, String, ◌≡◌, refl, sym, ap, ◌∙◌, ◌⊎◌, inl, inr, Bool, true, false, false≢true,
  Option, none, some, List, [], ◌∷◌, ◌++◌, ◌==◌, eq_iff, if◌then◌else◌, Bool-cases, Option-cases,
  Result, ok, err, find, filter, or_else, or_default,
}
use botfam.Mailbox.Spool.{
  Spool, File, Box, new_box, cur_box, tmp_box, Entry, ack, retire, fails, spend, without, lookup,
  move_to_cur,
}
use botfam.Mailbox.Spool.Deliver.{lookup-without}

other-name :
    (name other : String) (f : File) → (other == name) ≡ false → f.0 ≡ name → (f.0 == other) ≡ false
other-name name other f h e = elim (Bool-cases (f.0 == other)) [
  | inl t ↦ absurd (false≢true (sym h ∙ (eq_iff other name).1 (sym ((eq_iff f.0 other).0 t) ∙ e)))
  | inr t ↦ t
]

lookup-other :
    (name other : String) (fs : List File)
    → (other == name) ≡ false
    → lookup other (without name fs) ≡ lookup other fs
unfolding lookup without find filter
lookup-other name other [] h = refl
lookup-other name other (f ∷ fs) h = elim (Bool-cases (f.0 == name)) [
  | inl e ↦ rw (e, other-name name other f h ((eq_iff f.0 name).0 e)) (lookup-other name other fs h)
  | inr e ↦ rw (e, lookup-other name other fs h) refl
]

if-some :
    (b : Bool) (f g : File) (o : Option File)
    → (if b then some g else o) ≡ some f
    → ((b ≡ true) × (g ≡ f)) ⊎ (o ≡ some f)
if-some true f g o h = inl (refl, ap (or_default g) h)
if-some false f g o h = inr h

lookup-found : (name : String) (f : File) (fs : List File) → lookup name fs ≡ some f → f.0 ≡ name
unfolding lookup find
lookup-found name f [] h = absurd (none-ne-some f h)
lookup-found name f (g ∷ fs) h = elim (if-some (g.0 == name) f g (lookup name fs) h) [
  | inl (t, e) ↦ ap (λ x. x.0) (sym e) ∙ (eq_iff g.0 name).0 t
  | inr e ↦ lookup-found name f fs e
]

or_else-none : {A : Type 0} (o : Option A) → or_else o none ≡ o
or_else-none none = refl
or_else-none (some a) = refl

lookup-last :
    (name : String) (f : File) (fs : List File)
    → f.0 ≡ name
    → lookup name (without name fs ++ f ∷ []) ≡ some f
unfolding lookup find
lookup-last name f fs e =
    find-append (λ f. f.0 == name) (without name fs) (f ∷ [])
    ∙ rw (lookup-without name fs, (eq_iff f.0 name).1 e) refl

lookup-not_last :
    (name other : String) (f : File) (fs : List File)
    → (other == name) ≡ false
    → f.0 ≡ name
    → lookup other (without name fs ++ f ∷ []) ≡ lookup other fs
unfolding lookup find
lookup-not_last name other f fs h e =
    find-append (λ f. f.0 == other) (without name fs) (f ∷ [])
    ∙ rw (other-name name other f h e, or_else-none (lookup other (without name fs)))
        (lookup-other name other fs h)

module _ {Time : Type 0} where
  -- What the rename of a file of new/ leaves: on success the file is in cur/ and no longer in new/, and
  -- every other file is where it was; on an error both boxes are as they were.
  unfoldable Retired : String → Spool Time → Result (Unit {0}) → Spool Time → Type 0
  Retired name s (ok u) s' =
      (f : File) × ((lookup name s.new ≡ some f)
        × (lookup name s'.cur ≡ some f)
        × (lookup name s'.new ≡ none)
        × ((other : String)
            → (other == name) ≡ false
            → (lookup other s'.new ≡ lookup other s.new)
              × (lookup other s'.cur ≡ lookup other s.cur)))
  Retired name s (err e) s' = (s'.new ≡ s.new) × (s'.cur ≡ s.cur)

  -- What an acknowledgement leaves: it succeeds only for an entry of new/.
  unfoldable pub Acked : Entry → Spool Time → Result (Unit {0}) → Spool Time → Type 0
  unfolding Retired
  Acked e s (ok u) s' = (e.box ≡ new_box) × Retired e.name s (ok u) s'
  Acked e s (err x) s' = (s'.new ≡ s.new) × (s'.cur ≡ s.cur)

  retire-Retired :
      (name : String) (s : Spool Time) → Retired name s (retire name s).0 (retire name s).1
  unfolding retire Retired move_to_cur spend
  retire-Retired name s = elim (Bool-cases (fails s.faults)) [
    | inl e ↦ rw (retire, e) (refl, refl)
    | inr e ↦ elim (Option-cases (lookup name s.new)) [
      | inl n ↦ rw (retire, e, n) (refl, refl)
      | inr (f, o) ↦
          let h = lookup-found name f s.new o in
          rw (retire, e, o)
            (
              f,
              (
                o,
                lookup-last name f s.cur h,
                lookup-without name s.new,
                λ other d.
                    (lookup-other name other s.new d, lookup-not_last name other f s.cur d h),
              ),
            )
    ]
  ]

  new-Acked :
      (name : String) (s s' : Spool Time) (r : Result (Unit {0}))
      → Retired name s r s'
      → Acked (record { name = name; box = new_box }) s r s'
  unfolding Acked Retired
  new-Acked name s s' (ok u) h = (refl, h)
  new-Acked name s s' (err e) h = h

  ack-box :
      (name : String) (box : Box) (s : Spool Time)
      → Acked
          (record { name = name; box = box })
          s
          (ack (record { name = name; box = box }) s).0
          (ack (record { name = name; box = box }) s).1
  unfolding ack Acked
  ack-box name tmp_box s = (refl, refl)
  ack-box name new_box s = new-Acked name s _ _ (retire-Retired name s)
  ack-box name cur_box s = (refl, refl)

  -- An acknowledgement of an entry of new/ moves its file from there to cur/ and leaves every other file in its place, or
  -- it fails and leaves both boxes as they were; an entry that is not of new/ always fails.
  pub ack-Acked : (e : Entry) (s : Spool Time) → Acked e s (ack e s).0 (ack e s).1
  ack-Acked e s = ack-box e.name e.box s
