-- ===== src/Requests/Dependencies/Waiting.antt =====
-- How long a request waits for its assets: RequestProcessorService of
-- apps/worker/src/request_processor/request.processor.service.ts.
use mathlib.Core.List.{Memᴰ}
use mathlib.Core.List.Memᴰ
use mathlib.Core.Path.{subst}
use mathlib.Core.Option.{some-injective, none-ne-some}
use mathlib.Core.Bool.{false≢true}
use content_publishing_servi.Common.{
  ℕ, suc, ◌+◌, ◌*◌, ◌^◌, String, Option, none, some, List, [], ◌∷◌, Bool, true, false, ◌==ₛ◌, ◌||◌,
  if◌then◌else◌, leb, ◌≡◌, ◌∙◌, sym, refl, ap, arith, All, Bool-cases, inl, inr, ◌⊎◌, >>=-some,
}
use content_publishing_servi.Requests.Content.{RequestJob}
use content_publishing_servi.Requests.Attachments.{Ipfs, all, each}
use content_publishing_servi.Requests.Announcing.{
  Texts, QueuedAnnouncement, collect_announcement_and_queue,
}
use content_publishing_servi.Requests.Dependencies.{
  JobAnswers, RequestEnd, queued, delayed, failed, assets_of, some_missing, process_pinned, process,
  run_all, delay_job_and_increment_attempts, milliseconds_per_second, add_announcement,
}

||-false : (a b : Bool) → (a || b) ≡ false → (a ≡ false) × (b ≡ false)
||-false true b e = absurd (false≢true (sym e))
||-false false b e = (refl, e)

module _ (ipfs : Ipfs) (texts : Texts) where
  -- The contents of the request's assets, if all calls are answered
  abbrev pub contents_of : RequestJob → Option (List String)
  contents_of job = all (each ipfs.get_pinned (assets_of job.asset_to_mime_type))

  abbrev at_attempt : RequestJob → ℕ → RequestJob
  at_attempt job attempt = record job { dependency_attempt = attempt }

  module _ (job : RequestJob) (contents : List String) (answered : contents_of job ≡ some contents)
      (missing : some_missing contents ≡ true) where
    process-missing :
        (delay_seconds attempt : ℕ) (answers : JobAnswers)
        → process ipfs texts delay_seconds answers (at_attempt job attempt)
          ≡ delay_job_and_increment_attempts delay_seconds answers (at_attempt job attempt)
    unfolding process process_pinned
    process-missing delay_seconds attempt answers = rw (answered, missing) refl

    abbrev delay_at : ℕ → ℕ → ℕ
    delay_at delay_seconds attempt = 2 ^ attempt * delay_seconds * milliseconds_per_second

    -- The delays and the end, with one delay before them
    abbrev after_delay : ℕ → List ℕ × RequestEnd → List ℕ × RequestEnd
    after_delay d (delays, last) = (d ∷ delays, last)

    run_all-delayed :
        (fuel delay_seconds now attempt : ℕ)
        → leb (attempt + 1) 3 ≡ true
        → run_all ipfs texts (suc fuel) delay_seconds now (at_attempt job attempt)
          ≡ after_delay (delay_at delay_seconds (attempt + 1)) (
              run_all ipfs texts fuel delay_seconds
                (now + delay_at delay_seconds (attempt + 1))
                (at_attempt job (attempt + 1)))
    unfolding run_all delay_job_and_increment_attempts
    run_all-delayed fuel delay_seconds now attempt h =
        rw
          (
            process-missing delay_seconds attempt
                (record { now = now; moves = true; stores = true; adds = true }),
            h,
            run_all,
          )
          (ap
            (λ d. after_delay d (
              run_all ipfs texts fuel delay_seconds (now + delay_at delay_seconds (attempt + 1))
                (at_attempt job (attempt + 1))))
            (omega arith))

    run_all-failed :
        (fuel delay_seconds now : ℕ)
        → run_all ipfs texts (suc fuel) delay_seconds now (at_attempt job 3) ≡ ([], failed)
    unfolding run_all delay_job_and_increment_attempts
    run_all-failed fuel delay_seconds now =
        rw
          (
            process-missing delay_seconds 3
                (record { now = now; moves = true; stores = true; adds = true }),
            run_all,
          )
          refl

    -- A request that starts with no attempt, and of whose assets one is never pinned, is run four
    -- times: it is delayed by 2, 4 and 8 times the configured seconds, and then it fails.
    pub run_all-missing :
        (fuel delay_seconds now : ℕ)
        → run_all ipfs texts
            (suc (suc (suc (suc fuel))))
            delay_seconds
            now
            (record job { dependency_attempt = 0 })
          ≡ (
            2 * delay_seconds * 1000 ∷ 4 * delay_seconds * 1000 ∷ 8 * delay_seconds * 1000 ∷ [],
            failed,
          )
    run_all-missing fuel delay_seconds now =
        run_all-delayed (suc (suc (suc fuel))) delay_seconds now 0 refl
        ∙ ap (after_delay _) (
            run_all-delayed (suc (suc fuel)) delay_seconds _ 1 refl
            ∙ ap (after_delay _) (
                run_all-delayed (suc fuel) delay_seconds _ 2 refl
                ∙ ap (after_delay _) (run_all-failed fuel delay_seconds _)))

  -- Every asset has a content that is not empty.
  abbrev pub ArePinned : List String → Type 0
  ArePinned cids =
      All
        (λ cid.
          (content : String) × (ipfs.get_pinned cid ≡ some content) × ((content ==ₛ "") ≡ false))
        cids

  all-ArePinned :
      (cids contents : List String)
      → all (each ipfs.get_pinned cids) ≡ some contents
      → some_missing contents ≡ false
      → ArePinned cids
  unfolding all each some_missing
  all-ArePinned [] contents e h = tt
  all-ArePinned (cid ∷ cids) contents e h =
      let (content, c, e') = >>=-some (ipfs.get_pinned cid) _ contents e in
      let (rest, r, e'') = >>=-some (all (each ipfs.get_pinned cids)) _ contents e' in
      let h' = subst (λ cs. some_missing cs ≡ false) (sym (some-injective _ _ e'')) h in
      let (full, others) = ||-false _ _ h' in ((content, c, full), all-ArePinned cids rest r others)

  abbrev queued_of : RequestEnd → Option QueuedAnnouncement
  queued_of (queued q) = some q
  queued_of (delayed until later) = none
  queued_of failed = none

  if-queued_of :
      (b : Bool) (x y : RequestEnd) (q : QueuedAnnouncement)
      → queued_of (if b then x else y) ≡ some q
      → ((b ≡ true) × (queued_of x ≡ some q)) ⊎ ((b ≡ false) × (queued_of y ≡ some q))
  if-queued_of true x y q e = inl (refl, e)
  if-queued_of false x y q e = inr (refl, e)

  delay-queued_of :
      (delay_seconds : ℕ) (answers : JobAnswers) (job : RequestJob)
      → queued_of (delay_job_and_increment_attempts delay_seconds answers job) ≡ none
  unfolding delay_job_and_increment_attempts
  delay-queued_of delay_seconds answers job =
      elim (Bool-cases (leb (job.dependency_attempt + 1) 3)) [
        | inl e ↦ elim (Bool-cases answers.moves) [
          | inl m ↦ simp (e, m) refl
          | inr m ↦ simp (e, m) refl
        ]
        | inr e ↦ simp (e) refl
      ]

  add_announcement-queued_of :
      (answers : JobAnswers) (added : Option QueuedAnnouncement) (q : QueuedAnnouncement)
      → queued_of (add_announcement ipfs texts answers added) ≡ some q
      → added ≡ some q
  unfolding add_announcement
  add_announcement-queued_of answers none q e = absurd (none-ne-some q e)
  add_announcement-queued_of answers (some a) q e =
      elim (if-queued_of answers.adds (queued a) failed q e) [
        | inl (_, h) ↦ h
        | inr (_, h) ↦ absurd (none-ne-some q h)
      ]

  process_pinned-queued_of :
      (delay_seconds : ℕ) (answers : JobAnswers) (job : RequestJob) (q : QueuedAnnouncement)
      (pinned : Option (List String))
      → queued_of (process_pinned ipfs texts delay_seconds answers job pinned) ≡ some q
      → (contents : List String) × (pinned ≡ some contents)
        × (some_missing contents ≡ false)
        × (collect_announcement_and_queue ipfs texts job ≡ some q)
  unfolding process_pinned
  process_pinned-queued_of delay_seconds answers job q none e = absurd (none-ne-some q e)
  process_pinned-queued_of delay_seconds answers job q (some contents) e =
      elim (if-queued_of (some_missing contents)
        (delay_job_and_increment_attempts delay_seconds answers job)
        (add_announcement ipfs texts answers (collect_announcement_and_queue ipfs texts job)) q e) [
          | inl (_, h) ↦
              absurd (none-ne-some q (sym (delay-queued_of delay_seconds answers job) ∙ h))
          | inr (full, h) ↦ (contents, refl, full, add_announcement-queued_of answers _ q h)
        ]

  -- The asset has a content that is not empty.
  abbrev pub IsPinned : String → Type 0
  IsPinned cid =
      (content : String) × (ipfs.get_pinned cid ≡ some content) × ((content ==ₛ "") ≡ false)

  assets_of-IsPinned :
      (entries : List (String × String)) (entry : String × String)
      → ArePinned (assets_of (some entries))
      → Memᴰ entry entries
      → IsPinned entry.0
  unfolding assets_of
  assets_of-IsPinned [] entry p m = absurd (Memᴰ.not-nil m)
  assets_of-IsPinned (e ∷ rest) entry (here, later) (Memᴰ.head same) =
      subst (λ (x : String × String). IsPinned x.0) (sym same) here
  assets_of-IsPinned (e ∷ rest) entry (here, later) (Memᴰ.tail m) =
      assets_of-IsPinned rest entry later m

  -- A run queues an announcement only if all the request's assets, the keys of its mime types, are
  -- pinned with a content that is not empty; what it queues is the announcement made of the request.
  pub process-queued :
      (delay_seconds : ℕ) (answers : JobAnswers) (job : RequestJob) (q : QueuedAnnouncement)
      → process ipfs texts delay_seconds answers job ≡ queued q
      → ((types : List (String × String)) (entry : String × String)
          → job.asset_to_mime_type ≡ some types
          → Memᴰ entry types
          → IsPinned entry.0)
        × (collect_announcement_and_queue ipfs texts job ≡ some q)
  unfolding process
  process-queued delay_seconds answers job q e =
      let (contents, answered, full, made) =
        process_pinned-queued_of delay_seconds answers job q (contents_of job) (ap queued_of e) in
      let all_pinned = all-ArePinned (assets_of job.asset_to_mime_type) contents answered full in
      (
        λ types entry given m.
            assets_of-IsPinned types entry (subst (λ o. ArePinned (assets_of o)) given all_pinned)
              m,
        made,
      )
