-- ===== src/Ingest/Poll/Watermark.antt =====
-- internal/ingest/forge.go: the watermark after a poll, and the polls that follow.
use botfam.Base.{
  Perm, All-if, All-inserted, All-insert, ℕ, ◌≤◌, String, ◌≡◌, refl, inl, inr, false, List, [], ◌∷◌,
  ◌++◌, arith, ltb, if◌then◌else◌, Bool-cases, Result, ok, err, filter, All,
}
use botfam.Mailbox.Message.{Times}
use botfam.Mailbox.Spool.{Spool, Cursors, Process}
use botfam.Mailbox.Spool.Deliver.{contents}
use botfam.Ingest.{Notification, ForgeClient, Unicode}
use botfam.Ingest.Poll.{
  World, forge_updated_unix, high_water, sort_updated, insert_updated, is_newer, deliver_newer,
  advance,
}
use botfam.Ingest.Poll.Sorted.{IsByUpdate, sorted-perm, sorted-IsByUpdate}
use botfam.Ingest.Poll.Delivers.{texts_of, Delivered}

module _ {Time : Type 0} (times : Times Time) (unix : Time → ℕ) where
  -- No notification was updated after the watermark.
  unfoldable pub CaughtUp : ℕ → List Notification → Type 0
  CaughtUp m ns = All (λ n. forge_updated_unix times unix n ≤ m) ns

  pub CaughtUp-weaken :
      (m m' : ℕ) (ns : List Notification) → m ≤ m' → CaughtUp m ns → CaughtUp m' ns
  unfolding CaughtUp
  CaughtUp-weaken m m' [] h w = tt
  CaughtUp-weaken m m' (n ∷ ns) h w = (omega (arith, h, w.0), CaughtUp-weaken m m' ns h w.1)

  pub high_water-ge : (m : ℕ) (ns : List Notification) → m ≤ high_water times unix m ns
  unfolding high_water
  high_water-ge m [] = omega arith
  high_water-ge m (n ∷ ns) =
      let u = forge_updated_unix times unix n in
      ground (arith, high_water-ge u ns, high_water-ge m ns)

  pub high_water-CaughtUp :
      (m : ℕ) (ns : List Notification) → CaughtUp (high_water times unix m ns) ns
  unfolding high_water CaughtUp
  high_water-CaughtUp m [] = tt
  high_water-CaughtUp m (n ∷ ns) =
      let u = forge_updated_unix times unix n in
      (
        ground (arith, high_water-ge u ns, high_water-ge m ns),
        high_water-CaughtUp (if ltb m u then u else m) ns,
      )

  not_newer :
      (w : ℕ) (n : Notification)
      → is_newer times unix w n ≡ false
      → forge_updated_unix times unix n ≤ w
  unfolding is_newer
  not_newer w n e = ground (arith, e)

  pub old :
      (w : ℕ) (n : Notification)
      → forge_updated_unix times unix n ≤ w
      → is_newer times unix w n ≡ false
  unfolding is_newer
  old w n h = ground (arith, h)

  -- Whoever has delivered all that was newer than `w` has caught up with the rest as well.
  CaughtUp-filter :
      (w m : ℕ) (ns : List Notification)
      → w ≤ m
      → CaughtUp m (filter (is_newer times unix w) ns)
      → CaughtUp m ns
  unfolding CaughtUp filter is_newer
  CaughtUp-filter w m [] h c = tt
  CaughtUp-filter w m (n ∷ ns) h c =
      let k =
        All-if (λ n. forge_updated_unix times unix n ≤ m) (is_newer times unix w n) n
          (filter (is_newer times unix w) ns) c in
      (
        elim (Bool-cases (is_newer times unix w n)) [
          | inl e ↦ k.0 e
          | inr e ↦ omega (arith, h, not_newer w n e)
        ],
        CaughtUp-filter w m ns h k.1,
      )

  CaughtUp-insert :
      (m : ℕ) (n : Notification) (ns : List Notification)
      → CaughtUp m (insert_updated times unix n ns)
      → CaughtUp m (n ∷ ns)
  unfolding CaughtUp insert_updated
  CaughtUp-insert m n [] c = c
  CaughtUp-insert m n (x ∷ ns) c =
      All-insert (λ n. forge_updated_unix times unix n ≤ m)
        (ltb (forge_updated_unix times unix x) (forge_updated_unix times unix n)) n x
        (insert_updated times unix n ns) ns (CaughtUp-insert m n ns) c

  CaughtUp-sort_updated :
      (m : ℕ) (ns : List Notification) → CaughtUp m (sort_updated times unix ns) → CaughtUp m ns
  unfolding CaughtUp sort_updated
  CaughtUp-sort_updated m [] c = tt
  CaughtUp-sort_updated m (n ∷ ns) c =
      let k = CaughtUp-insert m n (sort_updated times unix ns) c in
      (k.0, CaughtUp-sort_updated m ns k.1)

  pub caught :
      (w m k : ℕ) (ns : List Notification)
      → m ≡ high_water times unix 0 (filter (is_newer times unix w) (sort_updated times unix ns))
      → w ≤ k
      → m ≤ k
      → CaughtUp k ns
  caught w m k ns e hw hm =
      let newer = filter (is_newer times unix w) (sort_updated times unix ns) in
      CaughtUp-sort_updated k ns (
        CaughtUp-filter w k (sort_updated times unix ns) hw (
          CaughtUp-weaken (high_water times unix 0 newer) k newer (omega (arith, e, hm))
            (high_water-CaughtUp 0 newer)))

  insert-CaughtUp :
      (w : ℕ) (n : Notification) (ns : List Notification)
      → CaughtUp w (n ∷ ns)
      → CaughtUp w (insert_updated times unix n ns)
  unfolding CaughtUp insert_updated
  insert-CaughtUp w n [] c = c
  insert-CaughtUp w n (x ∷ ns) c =
      All-inserted (λ n. forge_updated_unix times unix n ≤ w)
        (ltb (forge_updated_unix times unix x) (forge_updated_unix times unix n)) n x
        (insert_updated times unix n ns) ns c.0 c.1.0 (insert-CaughtUp w n ns (c.0, c.1.1)) c.1.1

  pub sort-CaughtUp :
      (w : ℕ) (ns : List Notification) → CaughtUp w ns → CaughtUp w (sort_updated times unix ns)
  unfolding CaughtUp sort_updated
  sort-CaughtUp w [] c = tt
  sort-CaughtUp w (n ∷ ns) c =
      insert-CaughtUp w n (sort_updated times unix ns) (c.0, sort-CaughtUp w ns c.1)

  module _ (unicode : Unicode) (p : Process) (client : ForgeClient Time) (login : String) where
    -- What a poll of the notifications `ns` leaves, when the watermark was set: on success what was
    -- updated after the watermark stands in new/, in the order of the updates, and the watermark has caught
    -- up with all of `ns`; on an error the cursors are as they were.
    unfoldable pub Polled : List Notification → World Time → Result (Unit {0}) → World Time → Type 0
    Polled ns (s, c) (ok u) (s', c') =
        (sent : List Notification) × Perm sent (filter (is_newer times unix c.forge_watermark) ns)
        × IsByUpdate times unix sent
        × (contents s' ≡ contents s ++ texts_of times unix unicode p client login sent)
        × CaughtUp c'.forge_watermark ns
        × (c.forge_watermark ≤ c'.forge_watermark)
        × (c'.irc_offset ≡ c.irc_offset)
    Polled ns (s, c) (err e) (s', c') = c' ≡ c

    pub advance-Polled :
        (ns : List Notification) (s : Spool Time) (c : Cursors) (r : Result ℕ) (s' : Spool Time)
        → Delivered times unix unicode p client login c.forge_watermark 0
            (sort_updated times unix ns)
            s
            r
            s'
        → Polled ns
            (s, c)
            (advance times unix unicode p client login r (s', c)).0
            (advance times unix unicode p client login r (s', c)).1
    unfolding Polled advance Delivered
    advance-Polled ns s c (err e) s' d = refl
    advance-Polled ns s c (ok m) s' d = elim (Bool-cases (ltb c.forge_watermark m)) [
      | inl e ↦ rw e (
        filter (is_newer times unix c.forge_watermark) (sort_updated times unix ns),
        sorted-perm times unix (is_newer times unix c.forge_watermark) ns,
        sorted-IsByUpdate times unix (is_newer times unix c.forge_watermark) ns,
        d.1,
        caught c.forge_watermark m m ns d.2 (ground (arith, e)) (omega arith),
        ground (arith, e),
        refl,
      )
      | inr e ↦ rw e (
        filter (is_newer times unix c.forge_watermark) (sort_updated times unix ns),
        sorted-perm times unix (is_newer times unix c.forge_watermark) ns,
        sorted-IsByUpdate times unix (is_newer times unix c.forge_watermark) ns,
        d.1,
        caught c.forge_watermark m c.forge_watermark ns d.2 (omega arith) (ground (arith, e)),
        omega arith,
        refl,
      )
    ]

    pub deliver_newer-old :
        (w m : ℕ) (ns : List Notification) (s : Spool Time)
        → CaughtUp w ns
        → deliver_newer times unix unicode p client login w m ns s ≡ (ok m, s)
    unfolding deliver_newer CaughtUp
    deliver_newer-old w m [] s c = refl
    deliver_newer-old w m (n ∷ ns) s c =
        rw (deliver_newer, old w n c.0) (deliver_newer-old w m ns s c.1)
