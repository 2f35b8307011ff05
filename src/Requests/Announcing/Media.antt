-- ===== src/Requests/Announcing/Media.antt =====
-- The media of a note: prepareAttachments and its helpers in
-- apps/worker/src/request_processor/dsnp.announcement.processor.ts.
use mathlib.Core.List.{Perm}
use mathlib.Core.List.Perm
use mathlib.Core.Option.{some-injective, none-ne-some}
use mathlib.Core.Path.{subst}
use content_publishing_servi.Common.{
  String, Option, none, some, List, [], ◌∷◌, Bool, true, false, ◌≡◌, refl, >>=-some, or_else, inl,
  inr, ◌⊎◌, if◌then◌else◌, ◌==ₛ◌, Paired, eq_iff,
}
use content_publishing_servi.Requests.Content.{
  AssetDto, AssetReferenceDto, Attachment, link, image, video, audio, MediaLink, AudioLink,
}
use content_publishing_servi.Requests.Urls.{get_ipfs_cid_placeholder}
use content_publishing_servi.Requests.Attachments.{
  Ipfs, all, each, mime_type_of, prepare_media_link, prepare_audio_link, prepare_attachment,
  prepare_attachments, prepare_media_links, prepare_audio_links, prepare_link_attachment,
  prepare_image_attachment, prepare_video_attachment, prepare_audio_attachment, video_duration,
  audio_duration,
}

video_duration-empty :
    (references : List AssetReferenceDto) → video_duration (some "") references ≡ some ""
unfolding video_duration
video_duration-empty [] = refl
video_duration-empty (r ∷ rest) = video_duration-empty rest

audio_duration-empty : (references : List AssetReferenceDto) → audio_duration "" references ≡ ""
unfolding audio_duration
audio_duration-empty [] = refl
audio_duration-empty (r ∷ rest) = audio_duration-empty rest

all-Paired :
    {A B : Type 0} (R : A → B → Type 0) (f : A → Option B)
    → ((x : A) (y : B) → f x ≡ some y → R x y)
    → (xs : List A) (ys : List B) → all (each f xs) ≡ some ys
    → Paired R xs ys
unfolding all each
all-Paired R f h [] ys e = subst (Paired R []) (some-injective _ _ e) tt
all-Paired R f h (x ∷ xs) ys e =
    let (y, made, e') = >>=-some (f x) _ ys e in
    let (rest, more, e'') = >>=-some (all (each f xs)) _ ys e' in
    subst (Paired R (x ∷ xs)) (some-injective _ _ e'') (h x y made, all-Paired R f h xs rest more)

if-some :
    {A : Type 0} (b : Bool) (x y : Option A) (a : A)
    → (if b then x else y) ≡ some a
    → ((b ≡ true) × (x ≡ some a)) ⊎ (y ≡ some a)
if-some true x y a e = inl (refl, e)
if-some false x y a e = inr e

module _ (ipfs : Ipfs) (mime_types : Option (List (String × String))) where
  -- The link has the mime type of the reference, the hash of what is pinned at it, its URL at the
  -- gateway, and its height and width.
  abbrev pub LinksTo : AssetReferenceDto → MediaLink → Type 0
  LinksTo r l =
      (types : List (String × String)) × (mime_types ≡ some types)
      × (l.media_type ≡ mime_type_of types r.reference_id)
      × ((content : String) × (ipfs.get_pinned r.reference_id ≡ some content)
          × (l.hash ≡ ipfs.calculate_dsnp_hash content))
      × (l.href ≡ get_ipfs_cid_placeholder ipfs.gateway_url r.reference_id)
      × (l.height ≡ r.height)
      × (l.width ≡ r.width)

  abbrev pub LinksToAudio : AssetReferenceDto → AudioLink → Type 0
  LinksToAudio r l =
      (types : List (String × String)) × (mime_types ≡ some types)
      × (l.media_type ≡ mime_type_of types r.reference_id)
      × ((content : String) × (ipfs.get_pinned r.reference_id ≡ some content)
          × (l.hash ≡ ipfs.calculate_dsnp_hash content))
      × (l.href ≡ get_ipfs_cid_placeholder ipfs.gateway_url r.reference_id)

  -- The links are those of the asset's references, in some order.
  abbrev AreLinks : {L : Type 0} → (AssetReferenceDto → L → Type 0) → AssetDto → List L → Type 0
  AreLinks R asset links =
      (completed : List AssetReferenceDto) × Perm completed (or_else asset.references [])
      × Paired R completed links

  -- The attachment is of the asset's type and has its name; a link has its URL, and the others have a
  -- link for each of its references and no duration.
  abbrev pub Describes : AssetDto → Attachment → Type 0
  Describes asset (link href name) =
      (asset.type_name ≡ "link") × (name ≡ asset.name) × (href ≡ or_else asset.href "")
  Describes asset (image name links) =
      (asset.type_name ≡ "image") × (name ≡ asset.name) × AreLinks LinksTo asset links
  Describes asset (video name links duration) =
      (asset.type_name ≡ "video")
      × (name ≡ asset.name)
      × AreLinks LinksTo asset links
      × (duration ≡ some "")
  Describes asset (audio name links duration) =
      (asset.type_name ≡ "audio")
      × (name ≡ asset.name)
      × AreLinks LinksToAudio asset links
      × (duration ≡ "")

  prepare_media_link-LinksTo :
      (types : Option (List (String × String))) (r : AssetReferenceDto) (l : MediaLink)
      → mime_types ≡ types
      → prepare_media_link ipfs types r ≡ some l
      → LinksTo r l
  unfolding prepare_media_link
  prepare_media_link-LinksTo none r l t e = absurd (none-ne-some l e)
  prepare_media_link-LinksTo (some types) r l t e =
      let (content, pinned, e') = >>=-some (ipfs.get_pinned r.reference_id) _ l e in
      subst (LinksTo r) (some-injective _ _ e')
        (types, t, refl, (content, pinned, refl), refl, refl, refl)

  prepare_audio_link-LinksToAudio :
      (types : Option (List (String × String))) (r : AssetReferenceDto) (l : AudioLink)
      → mime_types ≡ types
      → prepare_audio_link ipfs types r ≡ some l
      → LinksToAudio r l
  unfolding prepare_audio_link
  prepare_audio_link-LinksToAudio none r l t e = absurd (none-ne-some l e)
  prepare_audio_link-LinksToAudio (some types) r l t e =
      let (content, pinned, e') = >>=-some (ipfs.get_pinned r.reference_id) _ l e in
      subst (LinksToAudio r) (some-injective _ _ e') (types, t, refl, (content, pinned, refl), refl)

  prepare_media_links-AreLinks :
      (asset : AssetDto) (references : Option (List AssetReferenceDto)) (links : List MediaLink)
      → asset.references ≡ references
      → prepare_media_links ipfs mime_types references ≡ some links
      → AreLinks LinksTo asset links
  unfolding prepare_media_links
  prepare_media_links-AreLinks asset none links r e =
      ([], rw r Perm.nil, subst (Paired LinksTo []) (some-injective _ _ e) tt)
  prepare_media_links-AreLinks asset (some references) links r e = (
    ipfs.in_order_of_completion references,
    rw r (ipfs.in_order_of_completion-Perm references),
    all-Paired LinksTo (prepare_media_link ipfs mime_types)
        (λ x l made. prepare_media_link-LinksTo mime_types x l refl made)
        (ipfs.in_order_of_completion references) links e,
  )

  prepare_audio_links-AreLinks :
      (asset : AssetDto) (references : Option (List AssetReferenceDto)) (links : List AudioLink)
      → asset.references ≡ references
      → prepare_audio_links ipfs mime_types references ≡ some links
      → AreLinks LinksToAudio asset links
  unfolding prepare_audio_links
  prepare_audio_links-AreLinks asset none links r e =
      ([], rw r Perm.nil, subst (Paired LinksToAudio []) (some-injective _ _ e) tt)
  prepare_audio_links-AreLinks asset (some references) links r e = (
    ipfs.in_order_of_completion references,
    rw r (ipfs.in_order_of_completion-Perm references),
    all-Paired LinksToAudio (prepare_audio_link ipfs mime_types)
        (λ x l made. prepare_audio_link-LinksToAudio mime_types x l refl made)
        (ipfs.in_order_of_completion references) links e,
  )

  prepare_image_attachment-Describes :
      (asset : AssetDto) (a : Attachment)
      → asset.type_name ≡ "image"
      → prepare_image_attachment ipfs mime_types asset ≡ some a
      → Describes asset a
  unfolding prepare_image_attachment
  prepare_image_attachment-Describes asset a t e =
      let (links, made, e') =
        >>=-some (prepare_media_links ipfs mime_types asset.references) _ a e in
      subst (Describes asset) (some-injective _ _ e')
        (t, refl, prepare_media_links-AreLinks asset asset.references links refl made)

  prepare_video_attachment-Describes :
      (asset : AssetDto) (a : Attachment)
      → asset.type_name ≡ "video"
      → prepare_video_attachment ipfs mime_types asset ≡ some a
      → Describes asset a
  unfolding prepare_video_attachment
  prepare_video_attachment-Describes asset a t e =
      let (links, made, e') =
        >>=-some (prepare_media_links ipfs mime_types asset.references) _ a e in
      subst (Describes asset) (some-injective _ _ e') (
        t,
        refl,
        prepare_media_links-AreLinks asset asset.references links refl made,
        video_duration-empty (ipfs.in_order_of_completion (or_else asset.references [])),
      )

  prepare_audio_attachment-Describes :
      (asset : AssetDto) (a : Attachment)
      → asset.type_name ≡ "audio"
      → prepare_audio_attachment ipfs mime_types asset ≡ some a
      → Describes asset a
  unfolding prepare_audio_attachment
  prepare_audio_attachment-Describes asset a t e =
      let (links, made, e') =
        >>=-some (prepare_audio_links ipfs mime_types asset.references) _ a e in
      subst (Describes asset) (some-injective _ _ e') (
        t,
        refl,
        prepare_audio_links-AreLinks asset asset.references links refl made,
        audio_duration-empty (ipfs.in_order_of_completion (or_else asset.references [])),
      )

  prepare_attachment-Describes :
      (asset : AssetDto) (a : Attachment)
      → prepare_attachment ipfs mime_types asset ≡ some a
      → Describes asset a
  unfolding prepare_attachment prepare_link_attachment
  prepare_attachment-Describes asset a e = elim (if-some (asset.type_name ==ₛ "link") _ _ a e) [
    | inl (t, l) ↦
        subst (Describes asset) (some-injective _ _ l) ((eq_iff asset.type_name _).0 t, refl, refl)
    | inr e' ↦ elim (if-some (asset.type_name ==ₛ "image") _ _ a e') [
      | inl (t, i) ↦ prepare_image_attachment-Describes asset a ((eq_iff asset.type_name _).0 t) i
      | inr e'' ↦ elim (if-some (asset.type_name ==ₛ "video") _ _ a e'') [
        | inl (t, v) ↦ prepare_video_attachment-Describes asset a ((eq_iff asset.type_name _).0 t) v
        | inr rest ↦ elim (if-some (asset.type_name ==ₛ "audio") _ _ a rest) [
          | inl (t, s) ↦
              prepare_audio_attachment-Describes asset a ((eq_iff asset.type_name _).0 t) s
          | inr n ↦ absurd (none-ne-some a n)
        ]
      ]
    ]
  ]

  -- The attachments of a note are one for each asset, in the order in which their requests complete:
  -- each is of the asset's type and has its name. A link has the asset's URL. An image, a video or an
  -- audio has a link for each of the asset's references, in the order of completion, with the mime
  -- type, the hash of the pinned content and the URL at the gateway, and an image or a video also
  -- with height and width. A video or an audio has no duration, whatever durations the references
  -- give.
  pub prepare_attachments-Describes :
      (assets : List AssetDto) (attachments : List Attachment)
      → prepare_attachments ipfs (some assets) mime_types ≡ some attachments
      → (completed : List AssetDto) × Perm completed assets × Paired Describes completed attachments
  unfolding prepare_attachments
  prepare_attachments-Describes assets attachments e = (
    ipfs.in_order_of_completion assets,
    ipfs.in_order_of_completion-Perm assets,
    all-Paired Describes (prepare_attachment ipfs mime_types) prepare_attachment-Describes
        (ipfs.in_order_of_completion assets) attachments e,
  )
