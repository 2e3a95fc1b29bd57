-- ===== src/Observe/Poll.antt =====
-- What a poll reports: nothing that the forge lists for the actor is missing.
use botfam.Base.{
  ◌≡◌, ◌∙◌, refl, Bool, true, false, ◌&&◌, ◌||◌, List, [], ◌∷◌, ◌++◌, map, String, any, any-append,
  eq_refl, arith, ok,
}
use botfam.Observe.{Observation, event_id, dedupe}
use botfam.Observe.Dedupe.{IsDistinct, has_event, dedupe_lossless}
use botfam.Observe.Subject.{Notification}
use botfam.Observe.Worklist.{
  Encoders, Issue, PullRequest, Observer, resolve_actor, standing, bootstrap, poll, standing_of,
  import_threads, pulls_observations, pull_observations, review_observation,
  notification_observation, is_imported, user_in_list, push_observation, is_pushed, is_assigned,
  assigned_observation, issue_observation, only_if,
}

resolve_same :
    (o : Observer) → ((resolve_actor o).1.q ≡ o.q) × ((resolve_actor o).1.encoders ≡ o.encoders)
unfolding resolve_actor
resolve_same o = (ground arith, ground arith)

-- What the forge answers during a poll.
pub record IsAnswered (o : Observer) (actor : String) (issues : List Issue)
    (pulls : List PullRequest) (threads : List Notification) : Type 0 where
  pub login : (resolve_actor o).0 ≡ ok actor
  pub issues_listed : o.q.list_open_issues_assigned_to actor ≡ ok issues
  pub pulls_listed : o.q.list_open_pulls ≡ ok pulls
  pub threads_listed : o.q.list_all_unread_notifications ≡ ok threads

poll_answer :
    (o : Observer) (actor : String) (issues : List Issue) (pulls : List PullRequest)
    (threads : List Notification)
    → IsAnswered o actor issues pulls threads
    → (poll o).0
      ≡ ok (
          dedupe (
            standing_of o.encoders actor o.q.repo_slug issues pulls
            ++ import_threads o.encoders threads))
unfolding poll standing bootstrap
poll_answer o actor issues pulls threads a =
    let s = resolve_same o in
    ground (arith, a.login, a.issues_listed, a.pulls_listed, a.threads_listed, s.0, s.1)

any-only_if :
    (id : String) (b : Bool) (o : Observation)
    → any (has_event id) (only_if b o) ≡ (b && has_event id o)
unfolding any
any-only_if id true o = ground arith
any-only_if id false o = refl

-- What a poll owes the actor, given what the forge lists.
pub data IsDue (o : Observer) (actor : String) (issues : List Issue) (pulls : List PullRequest)
    (threads : List Notification) (ob : Observation) : Type 0 where
  -- an open issue that is assigned to the actor
  issue :
      (before : List Issue) (is : Issue) (after : List Issue)
      → issues ≡ before ++ is ∷ after
      → ob ≡ issue_observation o.encoders actor o.q.repo_slug is
      → IsDue o actor issues pulls threads ob
  -- an open pull request that is assigned to the actor
  assigned :
      (before : List PullRequest) (pr : PullRequest) (after : List PullRequest)
      → pulls ≡ before ++ pr ∷ after
      → is_assigned actor pr ≡ true
      → ob ≡ assigned_observation o.encoders o.q.repo_slug pr
      → IsDue o actor issues pulls threads ob
  -- an open pull request whose review is requested of the actor
  review :
      (before : List PullRequest) (pr : PullRequest) (after : List PullRequest)
      → pulls ≡ before ++ pr ∷ after
      → user_in_list actor pr.requested_reviewers ≡ true
      → ob ≡ review_observation o.encoders o.q.repo_slug pr
      → IsDue o actor issues pulls threads ob
  -- an open pull request of the actor, with its head
  push :
      (before : List PullRequest) (pr : PullRequest) (after : List PullRequest)
      → pulls ≡ before ++ pr ∷ after
      → is_pushed actor pr ≡ true
      → ob ≡ push_observation o.encoders o.q.repo_slug pr
      → IsDue o actor issues pulls threads ob
  -- an unread notification of an issue or a pull request
  unread :
      (before : List Notification) (t : Notification) (after : List Notification)
      → threads ≡ before ++ t ∷ after
      → is_imported t ≡ true
      → ob ≡ notification_observation o.encoders t
      → IsDue o actor issues pulls threads ob

module _ (id : String) where
  any_issue :
      (f : Issue → Observation) (before : List Issue) (is : Issue) (after : List Issue)
      → has_event id (f is) ≡ true
      → any (has_event id) (map f (before ++ is ∷ after)) ≡ true
  unfolding any
  any_issue f [] is after h = ground arith
  any_issue f (x ∷ before) is after h = ground (arith, any_issue f before is after h)

  any_pull :
      (e : Encoders) (actor repo : String) (before : List PullRequest) (pr : PullRequest)
      (after : List PullRequest)
      → any (has_event id) (pull_observations e actor repo pr) ≡ true
      → any (has_event id) (pulls_observations e actor repo (before ++ pr ∷ after)) ≡ true
  unfolding pulls_observations
  any_pull e actor repo [] pr after h =
      rw
        (
          any-append (has_event id) (pull_observations e actor repo pr)
              (pulls_observations e actor repo after),
          h,
        )
        refl
  any_pull e actor repo (x ∷ before) pr after h =
      rw
        (any-append (has_event id) (pull_observations e actor repo x)
          (pulls_observations e actor repo (before ++ pr ∷ after)))
        (ground (arith, any_pull e actor repo before pr after h))

  any_thread :
      (e : Encoders) (before : List Notification) (t : Notification) (after : List Notification)
      → is_imported t ≡ true
      → has_event id (notification_observation e t) ≡ true
      → any (has_event id) (import_threads e (before ++ t ∷ after)) ≡ true
  unfolding any import_threads
  any_thread e [] t after i h = ground (arith)
  any_thread e (x ∷ before) t after i h = ground (arith, any_thread e before t after i h)

in_pull :
    (id : String) (e : Encoders) (actor repo : String) (pr : PullRequest)
    → any (has_event id) (pull_observations e actor repo pr) ≡ (
        (is_assigned actor pr && has_event id (assigned_observation e repo pr))
        || (user_in_list actor pr.requested_reviewers
            && has_event id (review_observation e repo pr))
        || (is_pushed actor pr && has_event id (push_observation e repo pr)))
in_pull id e actor repo pr = ground (
  arith,
  any-append (has_event id) (only_if (is_assigned actor pr) (assigned_observation e repo pr)) (
      only_if (user_in_list actor pr.requested_reviewers) (review_observation e repo pr)
      ++ only_if (is_pushed actor pr) (push_observation e repo pr)),
  any-append (has_event id)
      (only_if (user_in_list actor pr.requested_reviewers) (review_observation e repo pr))
      (only_if (is_pushed actor pr) (push_observation e repo pr)),
  any-only_if id (is_assigned actor pr) (assigned_observation e repo pr),
  any-only_if id (user_in_list actor pr.requested_reviewers) (review_observation e repo pr),
  any-only_if id (is_pushed actor pr) (push_observation e repo pr),
)

module _ (o : Observer) (actor : String) (issues : List Issue) (pulls : List PullRequest)
    (threads : List Notification) (ob : Observation) where
  abbrev all_of : List Observation
  all_of =
      standing_of o.encoders actor o.q.repo_slug issues pulls ++ import_threads o.encoders threads

  split : any (has_event (event_id ob)) all_of ≡ (
      (any (has_event (event_id ob)) (map (issue_observation o.encoders actor o.q.repo_slug) issues)
        || any (has_event (event_id ob)) (pulls_observations o.encoders actor o.q.repo_slug pulls))
      || any (has_event (event_id ob)) (import_threads o.encoders threads))
  split =
      rw
        (
          any-append (has_event (event_id ob))
              (standing_of o.encoders actor o.q.repo_slug issues pulls)
              (import_threads o.encoders threads),
          any-append (has_event (event_id ob))
              (map (issue_observation o.encoders actor o.q.repo_slug) issues)
              (pulls_observations o.encoders actor o.q.repo_slug pulls),
        )
        refl

  in_issues :
      any (has_event (event_id ob)) (map (issue_observation o.encoders actor o.q.repo_slug) issues)
        ≡ true
      → any (has_event (event_id ob)) all_of ≡ true
  in_issues h = ground (arith, split)

  in_pulls :
      any (has_event (event_id ob)) (pulls_observations o.encoders actor o.q.repo_slug pulls) ≡ true
      → any (has_event (event_id ob)) all_of ≡ true
  in_pulls h = ground (arith, split)

  in_threads :
      any (has_event (event_id ob)) (import_threads o.encoders threads) ≡ true
      → any (has_event (event_id ob)) all_of ≡ true
  in_threads h = ground (arith, split)

  pull_due :
      (pr : PullRequest) (before after : List PullRequest)
      → pulls ≡ before ++ pr ∷ after
      → any (has_event (event_id ob)) (pull_observations o.encoders actor o.q.repo_slug pr) ≡ true
      → any (has_event (event_id ob)) all_of ≡ true
  pull_due pr before after l h =
      in_pulls (rw l (any_pull (event_id ob) o.encoders actor o.q.repo_slug before pr after h))

  same_id : (x : Observation) → ob ≡ x → has_event (event_id ob) x ≡ true
  same_id x e = rw e (eq_refl (event_id x))

  due_listed : IsDue o actor issues pulls threads ob → any (has_event (event_id ob)) all_of ≡ true
  unfolding any
  due_listed (issue before is after l e) = in_issues (
      rw l (
        any_issue (event_id ob) (issue_observation o.encoders actor o.q.repo_slug) before is after
          (same_id _ e)))
  due_listed (assigned before pr after l d e) =
      pull_due pr before after l
        (rw (in_pull (event_id ob) o.encoders actor o.q.repo_slug pr, d, same_id _ e) refl)
  due_listed (review before pr after l d e) =
      pull_due pr before after l (
        rw (in_pull (event_id ob) o.encoders actor o.q.repo_slug pr, d, same_id _ e) (ground arith))
  due_listed (push before pr after l d e) =
      pull_due pr before after l (
        rw (in_pull (event_id ob) o.encoders actor o.q.repo_slug pr, d, same_id _ e) (ground arith))
  due_listed (unread before t after l d e) =
      in_threads (rw l (any_thread (event_id ob) o.encoders before t after d (same_id _ e)))

-- When the forge answers, a poll returns observations with distinct ids, and each observation that is due
-- is among them by its id: the assigned issues, the assigned, reviewed and authored pull requests, and
-- the unread notifications of issues and pull requests. The watermark plays no part.
pub poll_complete :
    (o : Observer) (actor : String) (issues : List Issue) (pulls : List PullRequest)
    (threads : List Notification) (ob : Observation)
    → IsAnswered o actor issues pulls threads
    → IsDue o actor issues pulls threads ob
    → (out : List Observation) × ((poll o).0 ≡ ok out)
      × IsDistinct out
      × (any (has_event (event_id ob)) out ≡ true)
poll_complete o actor issues pulls threads ob a d =
    let k = dedupe_lossless (all_of o actor issues pulls threads ob) in
    (
      dedupe (all_of o actor issues pulls threads ob),
      poll_answer o actor issues pulls threads a,
      k.0,
      k.1 (event_id ob) ∙ due_listed o actor issues pulls threads ob d,
    )
