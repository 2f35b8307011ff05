-- ===== src/Dtos/Accepted.antt =====
-- A request that the rules accept and the announcement that the worker makes of it.
use mathlib.Core.Bool.{false≢true}
use content_publishing_servi.Common.{
  String, Option, none, some, List, [], true, ◌==ₛ◌, ◌≡◌, refl, sym, ◌∙◌, inl, inr, Bool-cases,
  or_else,
}
use content_publishing_servi.Requests.Content.{
  TagDto, AssetReferenceDto, AssetDto, NoteActivityDto, RequestContent, RequestJob, broadcast,
  reply, reaction, update, profile, tombstone,
}
use content_publishing_servi.Requests.Attachments.{
  Ipfs, prepare_tag, prepare_tags, prepare_attachment, prepare_attachments, prepare_media_links,
  prepare_audio_links, prepare_media_link, prepare_audio_link, prepare_image_attachment,
  prepare_video_attachment, prepare_audio_attachment,
}
use content_publishing_servi.Requests.Announcing.{
  Texts, QueuedAnnouncement, get_announcement_type, create_note, pin_text, prepare_note,
  process_broadcast, process_reply, process_update, process_profile, announcement_of,
  collect_announcement_and_queue,
}
use content_publishing_servi.Dtos.{
  Validators, is_optional, is_defined, min_length_one, every, is_modifiable, tag_is_valid,
  is_attachment_type, asset_is_valid, note_is_valid, profile_is_valid, request_is_valid,
}
use content_publishing_servi.Dtos.Made.{
  IsMade, both, >>=-IsMade, all-IsMade, each-IsMade, every-perm,
}

prepare_tag-IsMade : (tag : TagDto) → tag_is_valid tag ≡ true → IsMade (prepare_tag tag)
unfolding prepare_tag tag_is_valid
prepare_tag-IsMade tag e = elim (Bool-cases (tag.type_name ==ₛ "hashtag")) [
  | inl h ↦ rw h (_, refl)
  | inr not_h ↦ elim (Bool-cases (tag.type_name ==ₛ "mention")) [
    | inl m ↦ rw (not_h, m) (_, refl)
    | inr not_m ↦ absurd (false≢true (sym (rw (not_h, not_m) refl) ∙ e))
  ]
]

prepare_tags-IsMade :
    (tags : Option (List TagDto))
    → is_optional (every tag_is_valid) tags ≡ true
    → IsMade (prepare_tags tags)
unfolding prepare_tags is_optional
prepare_tags-IsMade none e = ([], refl)
prepare_tags-IsMade (some tags) e = all-IsMade tag_is_valid prepare_tag prepare_tag-IsMade tags e

get_announcement_type-IsMade :
    (target : String) → is_modifiable target ≡ true → IsMade (get_announcement_type target)
unfolding get_announcement_type is_modifiable
get_announcement_type-IsMade target e = elim (Bool-cases (target ==ₛ "broadcast")) [
  | inl b ↦ rw b (_, refl)
  | inr not_b ↦ elim (Bool-cases (target ==ₛ "reply")) [
    | inl r ↦ rw (not_b, r) (_, refl)
    | inr not_r ↦ absurd (false≢true (sym (rw (not_b, not_r) refl) ∙ e))
  ]
]

module _ (ipfs : Ipfs) (pinned : (cid : String) → IsMade (ipfs.get_pinned cid))
    (mime_types : List (String × String)) where
  prepare_media_links-IsMade :
      (references : Option (List AssetReferenceDto))
      → IsMade (prepare_media_links ipfs (some mime_types) references)
  unfolding prepare_media_links prepare_media_link
  prepare_media_links-IsMade none = ([], refl)
  prepare_media_links-IsMade (some references) =
      each-IsMade (prepare_media_link ipfs (some mime_types))
        (λ r.
          >>=-IsMade (ipfs.get_pinned r.reference_id) _ (pinned r.reference_id)
            (λ content. (_, refl)))
        (ipfs.in_order_of_completion references)

  prepare_audio_links-IsMade :
      (references : Option (List AssetReferenceDto))
      → IsMade (prepare_audio_links ipfs (some mime_types) references)
  unfolding prepare_audio_links prepare_audio_link
  prepare_audio_links-IsMade none = ([], refl)
  prepare_audio_links-IsMade (some references) =
      each-IsMade (prepare_audio_link ipfs (some mime_types))
        (λ r.
          >>=-IsMade (ipfs.get_pinned r.reference_id) _ (pinned r.reference_id)
            (λ content. (_, refl)))
        (ipfs.in_order_of_completion references)

  prepare_attachment-IsMade :
      (validators : Validators) (asset : AssetDto)
      → asset_is_valid validators asset ≡ true
      → IsMade (prepare_attachment ipfs (some mime_types) asset)
  unfolding prepare_attachment prepare_image_attachment prepare_video_attachment
      prepare_audio_attachment asset_is_valid is_attachment_type
  prepare_attachment-IsMade validators asset e = elim (Bool-cases (asset.type_name ==ₛ "link")) [
    | inl l ↦ rw l (_, refl)
    | inr not_l ↦ elim (Bool-cases (asset.type_name ==ₛ "image")) [
      | inl i ↦
          rw (not_l, i)
            (>>=-IsMade _ _ (prepare_media_links-IsMade asset.references) (λ links. (_, refl)))
      | inr not_i ↦ elim (Bool-cases (asset.type_name ==ₛ "video")) [
        | inl v ↦
            rw (not_l, not_i, v)
              (>>=-IsMade _ _ (prepare_media_links-IsMade asset.references) (λ links. (_, refl)))
        | inr not_v ↦ elim (Bool-cases (asset.type_name ==ₛ "audio")) [
          | inl a ↦
              rw (not_l, not_i, not_v, a)
                (>>=-IsMade _ _ (prepare_audio_links-IsMade asset.references) (λ links. (_, refl)))
          | inr not_a ↦ absurd (false≢true (sym (rw (not_l, not_i, not_v, not_a) refl) ∙ e))
        ]
      ]
    ]
  ]

  prepare_attachments-IsMade :
      (validators : Validators) (assets : Option (List AssetDto))
      → is_optional (every (asset_is_valid validators)) assets ≡ true
      → IsMade (prepare_attachments ipfs assets (some mime_types))
  unfolding prepare_attachments is_optional
  prepare_attachments-IsMade validators none e = ([], refl)
  prepare_attachments-IsMade validators (some assets) e =
      all-IsMade (asset_is_valid validators) (prepare_attachment ipfs (some mime_types))
        (prepare_attachment-IsMade validators) (ipfs.in_order_of_completion assets)
        (every-perm (asset_is_valid validators) (ipfs.in_order_of_completion-Perm assets) ∙ e)

-- The job of a request that may have assets carries mime types, and the date of its note is one that
-- the language reads.
abbrev pub IsReady : Texts → Option (List (String × String)) → RequestContent → Type 0
IsReady texts types (broadcast note) =
    IsMade types × IsMade (texts.iso_date (or_else note.published ""))
IsReady texts types (reply in_reply_to note) =
    IsMade types × IsMade (texts.iso_date (or_else note.published ""))
IsReady texts types (reaction emoji apply in_reply_to) = Unit
IsReady texts types (update target hash note) =
    IsMade types × IsMade (texts.iso_date (or_else note.published ""))
IsReady texts types (profile activity) = IsMade types
IsReady texts types (tombstone target hash) = Unit

module _ (validators : Validators) (ipfs : Ipfs) (texts : Texts)
    (pinned : (cid : String) → IsMade (ipfs.get_pinned cid))
    (pins : (text : String) → IsMade (ipfs.pin text)) where
  pin_text-IsMade : (text : String) → IsMade (pin_text ipfs texts text)
  unfolding pin_text
  pin_text-IsMade text = >>=-IsMade (ipfs.pin text) _ (pins text) (λ p. (_, refl))

  prepare_note-IsMade :
      (note : NoteActivityDto) (types : Option (List (String × String)))
      → note_is_valid validators note ≡ true
      → IsMade types × IsMade (texts.iso_date (or_else note.published ""))
      → IsMade (prepare_note ipfs texts note types)
  unfolding prepare_note create_note note_is_valid
  prepare_note-IsMade note types e ((mime_types, given), dated) =
      let (rest, assets) = both _ (is_optional (every (asset_is_valid validators)) note.assets) e in
      let (rest, _) = both _ (is_defined validators.is_iso8601 note.published) rest in
      let (rest, _) = both _ (is_defined min_length_one note.content) rest in
      let (tags, _) = both (is_optional (every tag_is_valid) note.tag) _ rest in
      rw given (
        >>=-IsMade (prepare_tags note.tag) _ (prepare_tags-IsMade note.tag tags) (λ t.
          >>=-IsMade (prepare_attachments ipfs note.assets (some mime_types)) _
            (prepare_attachments-IsMade ipfs pinned mime_types validators note.assets assets)
            (λ attachments.
              >>=-IsMade (create_note texts note t attachments) _
                (>>=-IsMade (texts.iso_date (or_else note.published "")) _ dated
                  (λ date. (_, refl)))
                (λ made. pin_text-IsMade (texts.note_json made)))))

  announcement_of-IsMade :
      (user : String) (types : Option (List (String × String))) (content : RequestContent)
      → request_is_valid validators content ≡ true
      → IsReady texts types content
      → IsMade (announcement_of ipfs texts user types content)
  unfolding announcement_of process_broadcast process_reply process_update process_profile
      request_is_valid profile_is_valid
  announcement_of-IsMade user types (broadcast note) e ready =
      >>=-IsMade _ _ (prepare_note-IsMade note types e ready) (λ made. (_, refl))
  announcement_of-IsMade user types (reply in_reply_to note) e ready =
      >>=-IsMade _ _ (prepare_note-IsMade note types (both _ _ e).1 ready) (λ made. (_, refl))
  announcement_of-IsMade user types (reaction emoji apply in_reply_to) e ready = (_, refl)
  announcement_of-IsMade user types (update target hash note) e ready =
      let (rest, valid) = both _ (note_is_valid validators note) e in
      >>=-IsMade _ _ (get_announcement_type-IsMade target (both _ _ rest).1)
        (λ t. >>=-IsMade _ _ (prepare_note-IsMade note types valid ready) (λ made. (_, refl)))
  announcement_of-IsMade user types (profile activity) e ready =
      let (rest, _) = both _ (is_optional validators.is_iso8601 activity.published) e in
      let (rest, _) = both _ (is_optional _ activity.icon) rest in
      let (tags, _) = both (is_optional (every tag_is_valid) activity.tag) _ rest in
      let (mime_types, given) = ready in
      rw given (
        >>=-IsMade _ _
          (prepare_media_links-IsMade ipfs pinned mime_types (some (or_else activity.icon [])))
          (λ links.
            >>=-IsMade _ _ (prepare_tags-IsMade activity.tag tags)
              (λ t. >>=-IsMade _ _ (pin_text-IsMade _) (λ p. (_, refl)))))
  announcement_of-IsMade user types (tombstone target hash) e ready =
      >>=-IsMade _ _ (get_announcement_type-IsMade target (both _ _ e).1) (λ t. (_, refl))

  -- The worker does not throw on a request that the rules accept: where IPFS answers, the job of a
  -- request that may have assets carries mime types, and the date of its note is one that the
  -- language reads, an announcement is queued. So the branches for an unsupported tag, attachment or
  -- target type are not reached.
  pub collect_announcement_and_queue-accepted :
      (job : RequestJob)
      → request_is_valid validators job.content ≡ true
      → IsReady texts job.asset_to_mime_type job.content
      → (q : QueuedAnnouncement) × (collect_announcement_and_queue ipfs texts job ≡ some q)
  unfolding collect_announcement_and_queue
  collect_announcement_and_queue-accepted job e ready =
      >>=-IsMade _ _
        (announcement_of-IsMade job.dsnp_user_id job.asset_to_mime_type job.content e ready)
        (λ a. (_, refl))
