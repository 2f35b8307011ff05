-- ===== src/Queues/Schemas.antt =====
-- The queue names tell the announcement types apart.
use content_publishing_servi.Common.{String, some, ◌≡◌, ◌↔◌, refl, arith, eq_iff}
use content_publishing_servi.Queues.{
  AnnouncementTypeDto, broadcast, reply, reaction, update, tombstone, profile,
  announcement_to_queue_name, queue_name_to_announcement,
}

queue_name_to_announcement-announcement_to_queue_name :
    (t : AnnouncementTypeDto) → queue_name_to_announcement (announcement_to_queue_name t) ≡ some t
unfolding queue_name_to_announcement announcement_to_queue_name
queue_name_to_announcement-announcement_to_queue_name broadcast = refl
queue_name_to_announcement-announcement_to_queue_name reply = refl
queue_name_to_announcement-announcement_to_queue_name reaction = refl
queue_name_to_announcement-announcement_to_queue_name update = refl
queue_name_to_announcement-announcement_to_queue_name tombstone = refl
queue_name_to_announcement-announcement_to_queue_name profile = refl

announcement_to_queue_name_of_found :
    (q : String) (t : AnnouncementTypeDto)
    → queue_name_to_announcement q ≡ some t
    → announcement_to_queue_name t ≡ q
unfolding queue_name_to_announcement announcement_to_queue_name
announcement_to_queue_name_of_found q t h = ground (
  arith,
  eq_iff "broadcastQueue" q,
  eq_iff "replyQueue" q,
  eq_iff "reactionQueue" q,
  eq_iff "updateQueue" q,
  eq_iff "tombstoneQueue" q,
  eq_iff "profileQueue" q,
)

-- The two maps are inverse: a queue name is mapped to a type exactly when that type is mapped to
-- the queue name. So each worker's queue is batched under its own announcement type.
pub queue_names_inverse :
    (q : String) (t : AnnouncementTypeDto)
    → (queue_name_to_announcement q ≡ some t) ↔ (announcement_to_queue_name t ≡ q)
queue_names_inverse q t = (
  announcement_to_queue_name_of_found q t,
  λ e. rw (← e) (queue_name_to_announcement-announcement_to_queue_name t),
)
