-- ===== src/Ingest/Poll/Checkpoint.antt =====
-- internal/ingest/ingest.go: the checkpoint after a round of polls.
use botfam.Base.{
  ◌≡◌, refl, sym, ap, ◌∙◌, inl, inr, true, some, List, [], arith, nat_eq_iff, Bool-cases, Exec,
}
use botfam.Mailbox.Spool.{Spool, Cursors, Process, write_cursors, write_tmp, fails, spent, spend}
use botfam.Ingest.Poll.{World, run_pollers, same_cursors, poll_once}

same_cursors-eq : (c d : Cursors) → same_cursors c d ≡ true → c ≡ d
unfolding same_cursors
same_cursors-eq c d h =
    cursors-eq ((nat_eq_iff c.irc_offset d.irc_offset).0 (ground (arith, h)))
      ((nat_eq_iff c.forge_watermark d.forge_watermark).0 (ground (arith, h)))
  where
    cursors-eq : c.irc_offset ≡ d.irc_offset → c.forge_watermark ≡ d.forge_watermark → c ≡ d
    cursors-eq i w = λ t. record { irc_offset = i t; forge_watermark = w t }

module _ {Time : Type 0} (p : Process) where
  write_cursors_saves :
      (c : Cursors) (s : Spool Time) → s.faults ≡ [] → (write_cursors p c s).1.cursors ≡ some c
  unfolding write_cursors write_tmp fails spend spent
  write_cursors_saves c s h = rw h refl

  -- After pollOnce, cursors.json holds the cursors that are in memory: when it held those of before,
  -- the pollers leave it alone, and no I/O error is to come after them.
  pub poll_once_saves :
      (polls : List (Exec (World Time) (Unit {0}))) (s : Spool Time) (c : Cursors)
      → (run_pollers p polls (s, c)).0.cursors ≡ some c
      → (run_pollers p polls (s, c)).0.faults ≡ []
      → (poll_once p polls (s, c)).0.cursors ≡ some (poll_once p polls (s, c)).1
  unfolding poll_once
  poll_once_saves polls s c hc hf =
      let w = run_pollers p polls (s, c) in
      elim (Bool-cases (same_cursors w.1 c)) [
        | inl e ↦ rw e (hc ∙ ap some (sym (same_cursors-eq w.1 c e)))
        | inr e ↦ rw e (write_cursors_saves w.1 w.0 hf)
      ]
