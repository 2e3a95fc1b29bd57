-- ===== src/Ingest/Poll.antt =====
-- internal/ingest: the poll of the forge's notifications, and the loop around the pollers.
pub mod Delivers
pub mod Sorted
pub mod Watermark
pub mod Lossless
pub mod Checkpoint
use botfam.Base.{
  ℕ, String, Bool, true, false, ◌&&◌, List, [], ◌∷◌, ltb, nat_eq, if◌then◌else◌, Result, ok, err,
  Exec, continue,
}
use botfam.Mailbox.Message.{Times}
use botfam.Mailbox.Spool.{Spool, Cursors, Process, deliver, write_cursors}
use botfam.Ingest.{Notification, ForgeClient, Unicode, build_message, parse_forge_time}

abbrev pub min_forge_watermark : ℕ
min_forge_watermark = 1000000000

abbrev pub World : Type 0 → Type 0
World Time = Spool Time × Cursors

module _ {Time : Type 0} (times : Times Time) (unix : Time → ℕ) where
  -- forgeUpdatedUnix
  unfoldable pub forge_updated_unix : Notification → ℕ
  unfolding parse_forge_time
  forge_updated_unix n =
      let t = parse_forge_time times n.updated in if times.is_zero t then unix times.now else unix t

  -- the highest updated_at, or the floor that is given
  unfoldable pub high_water : ℕ → List Notification → ℕ
  unfolding forge_updated_unix
  high_water m [] = m
  high_water m (n ∷ ns) = let u = forge_updated_unix n in high_water (if ltb m u then u else m) ns

  insert_updated : Notification → List Notification → List Notification
  unfolding forge_updated_unix
  insert_updated x [] = x ∷ []
  insert_updated x (y ∷ ys) =
      let rest = insert_updated x ys in
      if ltb (forge_updated_unix y) (forge_updated_unix x) then y ∷ rest else x ∷ y ∷ ys

  -- sort.Slice by updated_at; those of the same second stay in their order
  unfoldable pub sort_updated : List Notification → List Notification
  unfolding insert_updated
  sort_updated [] = []
  sort_updated (x ∷ xs) = insert_updated x (sort_updated xs)

  unfoldable pub is_newer : ℕ → Notification → Bool
  unfolding forge_updated_unix
  is_newer start n = ltb start (forge_updated_unix n)

  module _ (unicode : Unicode) (p : Process) (client : ForgeClient Time) (login : String) where
    -- the loop of Poll: what was updated after `start` is delivered; the highest updated_at of it
    unfoldable pub deliver_newer : ℕ → ℕ → List Notification → Exec (Spool Time) ℕ
    unfolding is_newer forge_updated_unix deliver build_message
    deliver_newer start m [] s = (ok m, s)
    deliver_newer start m (n ∷ ns) s =
        let u = forge_updated_unix n in
        elim (is_newer start n) [
          | false ↦ deliver_newer start m ns s
          | true ↦
              let (r, s') = deliver times p (build_message times unicode client login n) s in
              continue r (λ _. deliver_newer start (if ltb m u then u else m) ns) s'
        ]

    -- the watermark advances at the end only
    unfoldable pub advance : Result ℕ → Exec (World Time) Unit
    advance (err e) w = (err e, w)
    advance (ok m) (s, c) =
        (ok tt, (s, if ltb c.forge_watermark m then record c { forge_watermark = m } else c))

    -- a fresh spool, or one with a watermark of the old kind: nothing is delivered
    unfoldable pub seed : List Notification → Exec (World Time) Unit
    unfolding high_water
    seed ns (s, c) =
        let m = high_water 0 ns in
        (
          ok tt,
          (
            s,
            record c { forge_watermark = if ltb m min_forge_watermark then unix times.now else m },
          ),
        )

    unfoldable pub poll_notifications : Result (List Notification) → Exec (World Time) Unit
    unfolding seed sort_updated deliver_newer advance
    poll_notifications (err e) w = (err e, w)
    poll_notifications (ok ns) (s, c) =
        if ltb c.forge_watermark min_forge_watermark
        then seed ns (s, c)
        else let (r, s') = deliver_newer c.forge_watermark 0 (sort_updated ns) s in
          advance r (s', c)

    -- forgePoller.Poll
    unfoldable pub poll : Exec (World Time) Unit
    unfolding poll_notifications
    poll w = poll_notifications client.list_unread w

same_cursors : Cursors → Cursors → Bool
same_cursors c d = nat_eq c.irc_offset d.irc_offset && nat_eq c.forge_watermark d.forge_watermark

module _ {Time : Type 0} (p : Process) where
  unfoldable pub run_pollers : List (Exec (World Time) Unit) → World Time → World Time
  run_pollers [] w = w
  run_pollers (poll ∷ polls) w = run_pollers polls (poll w).1

  -- Ingester.pollOnce: the errors of the pollers and of the checkpoint are dropped
  unfoldable pub poll_once : List (Exec (World Time) Unit) → World Time → World Time
  unfolding run_pollers same_cursors write_cursors
  poll_once polls (s, c) =
      let (s', c') = run_pollers polls (s, c) in
      if same_cursors c' c then (s', c') else ((write_cursors p c' s').1, c')
