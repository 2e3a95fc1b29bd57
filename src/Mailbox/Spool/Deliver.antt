-- ===== src/Mailbox/Spool/Deliver.antt =====
-- internal/mailbox/spool.go: what a delivery leaves in the spool.
use botfam.Base.{
  map-append, find-append, ℕ, suc, ◌<◌, String, ◌≡◌, refl, ap, ◌∙◌, ◌⊎◌, inl, inr, false, none,
  some, List, [], ◌∷◌, ◌++◌, map, append-nil, arith, ◌==◌, eq_refl, Bool-cases, engine, Result, ok,
  err, ◌>>◌, any, find, filter, any-append,
}
use botfam.Mailbox.Message.{Times, Message, encode}
use botfam.Mailbox.Spool.{
  Spool, File, Process, unique_name, deliver, fails, spend, without, lookup, write_tmp, publish,
  move_to_new, after_publish, remove_tmp, nudge,
}
use botfam.Mailbox.Spool.Names.{unique_name-distinct}

module _ (name : String) where
  pub lookup-without : (fs : List File) → lookup name (without name fs) ≡ none
  unfolding lookup without find filter
  lookup-without [] = refl
  lookup-without (f ∷ fs) = ground (arith, lookup-without fs)

  pub lookup-written :
      (fs : List File) (text : String)
      → lookup name (without name fs ++ (name, text) ∷ []) ≡ some (name, text)
  unfolding lookup find
  lookup-written fs text =
      find-append (λ f. f.0 == name) (without name fs) ((name, text) ∷ [])
      ∙ rw (lookup-without fs, eq_refl name) refl

  without-absent : (fs : List File) → any (λ f. f.0 == name) fs ≡ false → without name fs ≡ fs
  unfolding without filter any
  without-absent [] h = refl
  without-absent (f ∷ fs) h = ground (arith, without-absent fs)

module _ {Time : Type 0} where
  -- The texts of the files in new/.
  unfoldable pub contents : Spool Time → List String
  contents s = map (λ f. f.1) s.new

  pub remove_tmp-keeps :
      (name : String) (s : Spool Time)
      → ((remove_tmp name s).1.counter ≡ s.counter) × ((remove_tmp name s).1.new ≡ s.new)
  unfolding remove_tmp spend
  remove_tmp-keeps name s = elim (Bool-cases (fails s.faults)) [
    | inl e ↦ rw e (refl, refl)
    | inr e ↦ rw e (refl, refl)
  ]

  nudge-keeps :
      (m : Message Time) (s : Spool Time)
      → ((nudge m s).counter ≡ s.counter) × ((nudge m s).new ≡ s.new)
  unfolding nudge
  nudge-keeps m s = elim (Bool-cases s.on_deliver) [
    | inl e ↦ rw e (refl, refl)
    | inr e ↦ rw e (refl, refl)
  ]

  -- the message in tmp/, before it is renamed
  after_publish-Delivery :
      (name text : String) (m : Message Time) (s : Spool Time)
      → lookup name s.tmp ≡ some (name, text)
      → any (λ f. f.0 == name) s.new ≡ false
      → let (r, s') = publish name s in
        let (r', t) = (after_publish name r >> (λ t. (ok name, nudge m t))) s' in
        (t.counter ≡ s.counter)
        × (((r' ≡ err engine) × (t.new ≡ s.new))
            ⊎ ((r' ≡ ok name) × (t.new ≡ s.new ++ (name, text) ∷ [])))
  unfolding publish after_publish move_to_new spend
  after_publish-Delivery name text m s hl hn = elim (Bool-cases (fails s.faults)) [
    | inl e ↦ rw e (let k = remove_tmp-keeps name (spend s) in (k.0, inl (refl, k.1)))
    | inr e ↦
        rw (e, hl)
          (let k = nudge-keeps m (record (spend s) {
            tmp = without name s.tmp;
            new = without name s.new ++ (name, text) ∷ [];
          }) in
            (
              k.0,
              inr (refl, k.1 ∙ ap (λ ns. ns ++ (name, text) ∷ []) (without-absent name s.new hn)),
            ))
  ]

module _ {Time : Type 0} (times : Times Time) (p : Process) where
  -- No file in new/ has a name that the process is still to give.
  unfoldable pub IsFresh : Spool Time → Type 0
  IsFresh s = (k : ℕ) → s.counter < k → any (λ f. f.0 == unique_name p k) s.new ≡ false

  -- A delivery fails and leaves new/ as it was, or the message is its last file.
  unfoldable pub Delivery : Message Time → Spool Time → Result String → Spool Time → Type 0
  Delivery m s r s' =
      let name = unique_name p (suc s.counter) in
      (s'.counter ≡ suc s.counter)
      × (((r ≡ err engine) × (s'.new ≡ s.new))
          ⊎ ((r ≡ ok name) × (s'.new ≡ s.new ++ (name, encode times m) ∷ [])))

  -- A delivery into a spool whose names are fresh fails and leaves new/ as it was, or adds the file of
  -- the message, under a new name, as the last of new/.
  pub deliver-Delivery :
      (m : Message Time) (s : Spool Time)
      → IsFresh s
      → Delivery m s (deliver times p m s).0 (deliver times p m s).1
  unfolding Delivery deliver write_tmp IsFresh
  deliver-Delivery m s h = elim (Bool-cases (fails s.faults)) [
    | inl e ↦ rw e (refl, inl (refl, refl))
    | inr e ↦ rw e (
        let name = unique_name p (suc s.counter) in
        after_publish-Delivery name (encode times m) m
          (record (spend s) {
            counter = suc s.counter;
            tmp = without name s.tmp ++ (name, encode times m) ∷ [];
          })
          (lookup-written name s.tmp (encode times m)) (h (suc s.counter) (omega arith)))
  ]

  -- what a delivery adds to the texts in new/
  unfoldable pub added : Message Time → Result String → List String
  added m (ok name) = encode times m ∷ []
  added m (err e) = []

  pub contents-Delivery :
      (m : Message Time) (s : Spool Time) (r : Result String) (s' : Spool Time)
      → Delivery m s r s'
      → contents s' ≡ contents s ++ added m r
  unfolding Delivery contents added
  contents-Delivery m s r s' (hc, inl (hr, hn)) =
      rw (hr, hn, append-nil (map (λ f. f.1) s.new)) refl
  contents-Delivery m s r s' (hc, inr (hr, hn)) =
      rw (hr, hn)
        (map-append (λ f. f.1) s.new ((unique_name p (suc s.counter), encode times m) ∷ []))

  pub IsFresh-Delivery :
      (m : Message Time) (s : Spool Time) (r : Result String) (s' : Spool Time)
      → IsFresh s
      → Delivery m s r s'
      → IsFresh s'
  unfolding Delivery IsFresh any
  IsFresh-Delivery m s r s' h (hc, inl (hr, hn)) k hk = rw hn (h k (omega (arith, hc, hk)))
  IsFresh-Delivery m s r s' h (hc, inr (hr, hn)) k hk =
      rw
        (
          hn,
          any-append (λ f. f.0 == unique_name p k) s.new
              ((unique_name p (suc s.counter), encode times m) ∷ []),
          h k (omega (arith, hc, hk)),
          unique_name-distinct p (suc s.counter) k (omega (arith, hc, hk)),
        )
        refl
