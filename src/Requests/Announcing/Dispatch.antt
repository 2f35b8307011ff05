-- ===== src/Requests/Announcing/Dispatch.antt =====
-- Which announcement DsnpAnnouncementProcessor.collectAnnouncementAndQueue makes of a request, and
-- which queue gets it.
use content_publishing_servi.Common.{
  String, Option, some, List, ◌≡◌, refl, >>=-some, ◌>>=◌, or_else, [],
}
use mathlib.Core.Path.{subst}
use mathlib.Core.Option.{some-injective}
use content_publishing_servi.Queues.{AnnouncementTypeDto, announcement_to_queue_name}
use content_publishing_servi.Dsnp.{
  AnnouncementType, Announcement, announcement_type, broadcast_type, reply_type, reaction_type,
  update_type, profile_type, tombstone_type, create_tombstone, create_broadcast, create_reply,
  create_reaction, create_profile, create_update,
}
use content_publishing_servi.Requests.Content.{
  RequestContent, broadcast, reply, reaction, update, profile, tombstone, RequestJob,
}
use content_publishing_servi.Requests.Attachments.{Ipfs, prepare_tags, prepare_media_links}
use content_publishing_servi.Requests.Announcing.{
  Texts, QueuedAnnouncement, announcement_of, queue_job, collect_announcement_and_queue,
  process_broadcast, process_reply, process_update, process_profile, get_announcement_type,
}

-- The request's type, as the job names it and as the announcement does
abbrev pub dto_type_of : RequestContent → AnnouncementTypeDto
dto_type_of (broadcast content) = AnnouncementTypeDto.broadcast
dto_type_of (reply in_reply_to content) = AnnouncementTypeDto.reply
dto_type_of (reaction emoji apply in_reply_to) = AnnouncementTypeDto.reaction
dto_type_of (update target hash content) = AnnouncementTypeDto.update
dto_type_of (profile content) = AnnouncementTypeDto.profile
dto_type_of (tombstone target hash) = AnnouncementTypeDto.tombstone

abbrev pub type_of : RequestContent → AnnouncementType
type_of (broadcast content) = broadcast_type
type_of (reply in_reply_to content) = reply_type
type_of (reaction emoji apply in_reply_to) = reaction_type
type_of (update target hash content) = update_type
type_of (profile content) = profile_type
type_of (tombstone target hash) = tombstone_type

abbrev Fits : RequestContent → String → Announcement → Type 0
Fits content user a = (announcement_type a ≡ type_of content) × (a.from_id ≡ user)

-- The announcement of a do block that ends in `some`
last-Fits :
    {A : Type 0} (content : RequestContent) (user : String) (o : Option A) (f : A → Announcement)
    → ((x : A) → Fits content user (f x))
    → (a : Announcement) → (o >>= λ x. some (f x)) ≡ some a
    → Fits content user a
last-Fits content user o f h a e =
    let (x, _, e') = >>=-some o (λ x. some (f x)) a e in
    subst (Fits content user) (some-injective _ _ e') (h x)

abbrev SentAs : RequestJob → RequestContent → QueuedAnnouncement → Type 0
SentAs job content q =
    (q.queue_name ≡ announcement_to_queue_name (dto_type_of content))
    × (announcement_type q.announcement ≡ type_of content)
    × (q.announcement.from_id ≡ job.dsnp_user_id)
    × (q.job_id ≡ job.id)

queue_job-SentAs :
    (job : RequestJob) (content : RequestContent) (a : Announcement)
    → announcement_type a ≡ type_of content
    → a.from_id ≡ job.dsnp_user_id
    → SentAs job content (queue_job job.id content a)
unfolding queue_job announcement_to_queue_name
queue_job-SentAs job (broadcast content) a t f = (refl, t, f, refl)
queue_job-SentAs job (reply in_reply_to content) a t f = (refl, t, f, refl)
queue_job-SentAs job (reaction emoji apply in_reply_to) a t f = (refl, t, f, refl)
queue_job-SentAs job (update target hash content) a t f = (refl, t, f, refl)
queue_job-SentAs job (profile content) a t f = (refl, t, f, refl)
queue_job-SentAs job (tombstone target hash) a t f = (refl, t, f, refl)

module _ (ipfs : Ipfs) (texts : Texts) where
  announcement_of-Fits :
      (user : String) (mime_types : Option (List (String × String))) (content : RequestContent)
      (a : Announcement)
      → announcement_of ipfs texts user mime_types content ≡ some a
      → Fits content user a
  unfolding announcement_of announcement_type process_broadcast process_reply process_update
      process_profile create_tombstone create_broadcast create_reply create_reaction create_profile
      create_update
  announcement_of-Fits user mime_types (broadcast content) a e =
      last-Fits (broadcast content) user _ _ (λ note. (refl, refl)) a e
  announcement_of-Fits user mime_types (reply in_reply_to content) a e =
      last-Fits (reply in_reply_to content) user _ _ (λ note. (refl, refl)) a e
  announcement_of-Fits user mime_types (reaction emoji apply in_reply_to) a e =
      subst (Fits (reaction emoji apply in_reply_to) user) (some-injective _ _ e) (refl, refl)
  announcement_of-Fits user mime_types (update target hash content) a e =
      let (target_type, _, e') = >>=-some (get_announcement_type target) _ a e in
      last-Fits (update target hash content) user _ _ (λ note. (refl, refl)) a e'
  announcement_of-Fits user mime_types (profile content) a e =
      let (attachments, _, e') =
        >>=-some (prepare_media_links ipfs mime_types (some (or_else content.icon []))) _ a e in
      let (tags, _, e'') = >>=-some (prepare_tags content.tag) _ a e' in
      last-Fits (profile content) user _ _ (λ pinned. (refl, refl)) a e''
  announcement_of-Fits user mime_types (tombstone target hash) a e =
      last-Fits (tombstone target hash) user _ _ (λ target_type. (refl, refl)) a e

  -- The job that a request adds is named after the request, it goes to the queue of the request's
  -- type, and its announcement is of that type and from the request's user.
  pub collect_announcement_and_queue-dispatch :
      (job : RequestJob) (q : QueuedAnnouncement)
      → collect_announcement_and_queue ipfs texts job ≡ some q
      → (q.queue_name ≡ announcement_to_queue_name (dto_type_of job.content))
        × (announcement_type q.announcement ≡ type_of job.content)
        × (q.announcement.from_id ≡ job.dsnp_user_id)
        × (q.job_id ≡ job.id)
  unfolding collect_announcement_and_queue
  collect_announcement_and_queue-dispatch job q e =
      let (a, made, e') =
        >>=-some (announcement_of ipfs texts job.dsnp_user_id job.asset_to_mime_type job.content) _
          q e in
      let (type_eq, from_eq) =
        announcement_of-Fits job.dsnp_user_id job.asset_to_mime_type job.content a made in
      subst (SentAs job job.content) (some-injective _ _ e')
        (queue_job-SentAs job job.content a type_eq from_eq)
