-- ===== src/Ingest/Poll/Lossless.antt =====
-- internal/ingest/forge.go: no notification is lost between polls, and none is delivered twice.
use mathlib.Core.Path.{subst}
use botfam.Base.{
  ℕ, ◌≤◌, ◌<◌, String, ◌≡◌, refl, sym, true, false, List, [], ◌∷◌, arith, ltb, if◌then◌else◌, ok,
  All,
}
use botfam.Mailbox.Message.{Times}
use botfam.Mailbox.Spool.{Spool, Cursors, Process}
use botfam.Mailbox.Spool.Deliver.{IsFresh}
use botfam.Ingest.{Notification, ForgeClient, Unicode, parse_forge_time}
use botfam.Ingest.Poll.{
  min_forge_watermark, forge_updated_unix, high_water, sort_updated, deliver_newer, advance, seed,
  poll_notifications, poll,
}
use botfam.Ingest.Poll.Delivers.{deliver_newer-Delivered}
use botfam.Ingest.Poll.Watermark.{
  CaughtUp, Polled, advance-Polled, high_water-CaughtUp, deliver_newer-old, sort-CaughtUp,
  CaughtUp-weaken,
}

not_below : (m n : ℕ) → n ≤ m → ltb m n ≡ false
not_below m n h = ground (arith, h)

below : (m n : ℕ) → m < n → ltb m n ≡ true
below m n h = ground (arith, h)

module _ {Time : Type 0} (times : Times Time) (unix : Time → ℕ) (t : Time) where
  -- A time that can be parsed does not depend on the clock.
  unix-clock :
      (n : Notification)
      → times.is_zero (parse_forge_time times n.updated) ≡ false
      → forge_updated_unix (record times { now = t }) unix n ≡ forge_updated_unix times unix n
  unfolding forge_updated_unix parse_forge_time
  unix-clock n h = rw h refl

  CaughtUp-clock :
      (w : ℕ) (ns : List Notification)
      → All (λ n. times.is_zero (parse_forge_time times n.updated) ≡ false) ns
      → CaughtUp times unix w ns
      → CaughtUp (record times { now = t }) unix w ns
  unfolding CaughtUp
  CaughtUp-clock w [] h c = tt
  CaughtUp-clock w (n ∷ ns) h c =
      (subst (λ u. u ≤ w) (sym (unix-clock n h.0)) c.0, CaughtUp-clock w ns h.1 c.1)

module _ {Time : Type 0} (unix : Time → ℕ) (unicode : Unicode) (p : Process)
    (client : ForgeClient Time) (login : String) (ns : List Notification) where
  poll_notifications-Polled :
      (times : Times Time) (s : Spool Time) (c : Cursors)
      → IsFresh times p s
      → min_forge_watermark ≤ c.forge_watermark
      → let w = poll_notifications times unix unicode p client login (ok ns) (s, c) in
        Polled times unix unicode p client login ns (s, c) w.0 w.1
  unfolding poll_notifications
  poll_notifications-Polled times s c hf hw =
      rw (not_below c.forge_watermark min_forge_watermark hw) (
        let loop =
          deliver_newer times unix unicode p client login c.forge_watermark 0
            (sort_updated times unix ns) s in
        advance-Polled times unix unicode p client login ns s c loop.0 loop.1 (
          deliver_newer-Delivered times unix unicode p client login c.forge_watermark 0
            (sort_updated times unix ns) s hf))

  poll_notifications-CaughtUp :
      (times : Times Time) (s : Spool Time) (c : Cursors)
      → min_forge_watermark ≤ c.forge_watermark
      → CaughtUp times unix c.forge_watermark ns
      → poll_notifications times unix unicode p client login (ok ns) (s, c) ≡ (ok tt, (s, c))
  unfolding poll_notifications advance
  poll_notifications-CaughtUp times s c hw hc =
      rw
        (
          not_below c.forge_watermark min_forge_watermark hw,
          deliver_newer-old times unix unicode p client login c.forge_watermark 0
              (sort_updated times unix ns) s (sort-CaughtUp times unix c.forge_watermark ns hc),
          not_below c.forge_watermark 0 (omega arith),
        )
        refl

  -- the watermark that is set first
  seed_watermark : Times Time → ℕ
  seed_watermark times =
      let m = high_water times unix 0 ns in if ltb m min_forge_watermark then unix times.now else m

  seed_watermark-ge :
      (times : Times Time)
      → min_forge_watermark ≤ unix times.now
      → min_forge_watermark ≤ seed_watermark times
  unfolding seed_watermark
  seed_watermark-ge times hn = ground (arith, hn)

  seed_watermark-CaughtUp :
      (times : Times Time)
      → min_forge_watermark ≤ unix times.now
      → CaughtUp times unix (seed_watermark times) ns
  unfolding seed_watermark
  seed_watermark-CaughtUp times hn =
      CaughtUp-weaken times unix (high_water times unix 0 ns) (seed_watermark times) ns
        (ground (arith, hn)) (high_water-CaughtUp times unix 0 ns)

  poll_notifications-seeds :
      (times : Times Time) (s : Spool Time) (c : Cursors)
      → c.forge_watermark < min_forge_watermark
      → poll_notifications times unix unicode p client login (ok ns) (s, c)
        ≡ (ok tt, (s, record c { forge_watermark = seed_watermark times }))
  unfolding poll_notifications seed seed_watermark
  poll_notifications-seeds times s c hw = rw (below c.forge_watermark min_forge_watermark hw) refl

  module _ (answer : client.list_unread ≡ ok ns) where
    -- A poll with a set watermark, of a spool whose names are fresh: on success the notifications
    -- that the forge answers with and that were updated after the watermark, each as often as it is in the
    -- answer, are added to new/ in the order of their updates, oldest first, and nothing else is, and
    -- the watermark, which never goes down, has caught up with all that the forge answers with; on an
    -- error the cursors are as they were.
    pub poll-Polled :
        (times : Times Time) (s : Spool Time) (c : Cursors)
        → IsFresh times p s
        → min_forge_watermark ≤ c.forge_watermark
        → let w = poll times unix unicode p client login (s, c) in
          Polled times unix unicode p client login ns (s, c) w.0 w.1
    unfolding poll
    poll-Polled times s c hf hw =
        subst
          (λ r.
            let w = poll_notifications times unix unicode p client login r (s, c) in
            Polled times unix unicode p client login ns (s, c) w.0 w.1)
          (sym answer) (poll_notifications-Polled times s c hf hw)

    -- When the watermark has caught up with the notifications, a poll of them does nothing.
    poll-CaughtUp :
        (times : Times Time) (s : Spool Time) (c : Cursors)
        → min_forge_watermark ≤ c.forge_watermark
        → CaughtUp times unix c.forge_watermark ns
        → poll times unix unicode p client login (s, c) ≡ (ok tt, (s, c))
    unfolding poll
    poll-CaughtUp times s c hw hc =
        subst (λ r. poll_notifications times unix unicode p client login r (s, c) ≡ (ok tt, (s, c)))
          (sym answer) (poll_notifications-CaughtUp times s c hw hc)

    -- What a poll of a set watermark and its outcome say of a later poll.
    later :
        (times : Times Time) (t : Time) (c c' : Cursors) (s s' : Spool Time)
        → All (λ n. times.is_zero (parse_forge_time times n.updated) ≡ false) ns
        → min_forge_watermark ≤ c.forge_watermark
        → Polled times unix unicode p client login ns (s, c) (ok tt) (s', c')
        → (min_forge_watermark ≤ c'.forge_watermark)
          × CaughtUp (record times { now = t }) unix c'.forge_watermark ns
    unfolding Polled
    later times t c c' s s' hp hw h =
        (omega (arith, hw, h.5), CaughtUp-clock times unix t c'.forge_watermark ns hp h.4)

    -- After a poll that succeeded, a later poll of the same notifications delivers none of them again
    -- and leaves spool and cursors as they are, if every notification has a time that can be parsed.
    pub poll-poll :
        (times : Times Time) (t : Time) (c c' : Cursors) (s s' : Spool Time)
        → IsFresh times p s
        → All (λ n. times.is_zero (parse_forge_time times n.updated) ≡ false) ns
        → min_forge_watermark ≤ c.forge_watermark
        → poll times unix unicode p client login (s, c) ≡ (ok tt, (s', c'))
        → poll (record times { now = t }) unix unicode p client login (s', c') ≡ (ok tt, (s', c'))
    poll-poll times t c c' s s' hf hp hw e =
        let h =
          subst (λ w. Polled times unix unicode p client login ns (s, c) w.0 w.1) e
            (poll-Polled times s c hf hw) in
        let l = later times t c c' s s' hp hw h in
        poll-CaughtUp (record times { now = t }) s' c' l.0 l.1

    -- A poll with a watermark that is not set, of a clock that stands after its least value, delivers
    -- nothing and sets the watermark: none of the notifications that are there is newer than it.
    pub poll_seeds :
        (times : Times Time) (s : Spool Time) (c : Cursors)
        → c.forge_watermark < min_forge_watermark
        → min_forge_watermark ≤ unix times.now
        → (m : ℕ) × ((poll times unix unicode p client login (s, c)
              ≡ (ok tt, (s, record c { forge_watermark = m })))
            × (min_forge_watermark ≤ m)
            × CaughtUp times unix m ns)
    unfolding poll
    poll_seeds times s c hw hn =
        let m = seed_watermark times in
        (
          m,
          (
            subst
                (λ r.
                  poll_notifications times unix unicode p client login r (s, c)
                  ≡ (ok tt, (s, record c { forge_watermark = m })))
                (sym answer) (poll_notifications-seeds times s c hw),
            seed_watermark-ge times hn,
            seed_watermark-CaughtUp times hn,
          ),
        )
