-- ===== src/Api/Development/Populate.antt =====
-- What POST /dev/dummy/announcement adds to the queues.
use text.Mathlib.TextEquality.{eq_iff}
use mathlib.Core.Path.{subst}
use mathlib.Core.Bool.{false≢true}
use content_publishing_servi.Common.{
  ℕ, zero, suc, ◌+◌, String, none, some, List, [], ◌∷◌, ◌≡◌, ◌≢◌, refl, ap, sym, ◌∙◌, ◌⊎◌, inl, inr,
  Bool-cases, ◌==ₛ◌, ==-false, length, All,
}
use content_publishing_servi.Queues.{
  get, AnnouncementTypeDto, broadcast, reply, reaction, update, tombstone, profile,
  announcement_to_queue_name,
}
use content_publishing_servi.Dsnp.{
  AnnouncementType, Announcement, announcement_type, broadcast_type, reply_type, reaction_type,
  update_type, tombstone_type, profile_type, create_tombstone, create_broadcast, create_reply,
  create_reaction, create_profile, create_update,
}
use content_publishing_servi.IpfsClient.{Hasher, calculate_dsnp_hash}
use content_publishing_servi.Api.Development.{
  announcement_type_text, Draws, DummyJob, queue_mapper, dummy_data, dummy_job, populate,
}

abbrev type_of_dto : AnnouncementTypeDto → AnnouncementType
type_of_dto broadcast = broadcast_type
type_of_dto reply = reply_type
type_of_dto reaction = reaction_type
type_of_dto update = update_type
type_of_dto tombstone = tombstone_type
type_of_dto profile = profile_type

queue_of_type :
    (t : AnnouncementTypeDto)
    → get queue_mapper (announcement_type_text t) ≡ some (announcement_to_queue_name t)
unfolding announcement_type_text announcement_to_queue_name
queue_of_type broadcast = refl
queue_of_type reply = refl
queue_of_type reaction = refl
queue_of_type update = refl
queue_of_type tombstone = refl
queue_of_type profile = refl

data_of_type :
    (t : AnnouncementTypeDto) (d : Draws)
    → (a : Announcement) × (dummy_data (announcement_type_text t) d ≡ some a)
      × (announcement_type a ≡ type_of_dto t)
unfolding announcement_type_text dummy_data announcement_type create_tombstone create_broadcast
    create_reply create_reaction create_profile create_update
data_of_type broadcast d = (_, refl, refl)
data_of_type reply d = (_, refl, refl)
data_of_type reaction d = (_, refl, refl)
data_of_type update d = (_, refl, refl)
data_of_type tombstone d = (_, refl, refl)
data_of_type profile d = (_, refl, refl)

module _ (s : String) where
  abbrev Found : Type 0
  Found = (t : AnnouncementTypeDto) × (s ≡ announcement_type_text t)

  abbrev IsOther : AnnouncementTypeDto → Type 0
  IsOther t = s ≢ announcement_type_text t

  find_type : (ts : List AnnouncementTypeDto) → Found ⊎ All IsOther ts
  find_type [] = inr tt
  find_type (t ∷ ts) = elim (Bool-cases (s ==ₛ announcement_type_text t)) [
    | inl e ↦ inl (t, (eq_iff s (announcement_type_text t)).0 e)
    | inr e ↦ elim (find_type ts) [
      | inl found ↦ inl found
      | inr others ↦
          inr ((λ p. false≢true (sym e ∙ (eq_iff s (announcement_type_text t)).1 p)), others)
    ]
  ]

  type_cases : Found ⊎ ((t : AnnouncementTypeDto) → IsOther t)
  type_cases = elim (find_type (broadcast ∷ reply ∷ reaction ∷ update ∷ tombstone ∷ profile ∷ [])) [
    | inl found ↦ inl found
    | inr (a, (b, (c, (d, (e, (f, _)))))) ↦ inr λ t. elim t as (λ t. IsOther t) [
      | broadcast ↦ a
      | reply ↦ b
      | reaction ↦ c
      | update ↦ d
      | tombstone ↦ e
      | profile ↦ f
    ]
  ]

  data_of_other : (d : Draws) → ((t : AnnouncementTypeDto) → IsOther t) → dummy_data s d ≡ none
  unfolding announcement_type_text dummy_data
  data_of_other d h =
      rw
        (
          ==-false s "broadcast" (h broadcast),
          ==-false s "profile" (h profile),
          ==-false s "update" (h update),
          ==-false s "reply" (h reply),
          ==-false s "reaction" (h reaction),
          ==-false s "tombstone" (h tombstone),
        )
        refl

module _ (hasher : Hasher) (announcement_json : Announcement → String) (draws : ℕ → Draws) where
  -- A job of the type's queue, with an announcement of the type, under the hash of its text
  abbrev pub IsDummy : AnnouncementTypeDto → DummyJob → Type 0
  IsDummy t job =
      (job.queue_name ≡ announcement_to_queue_name t)
      × (announcement_type job.announcement ≡ type_of_dto t)
      × (job.job_id ≡ calculate_dsnp_hash hasher (announcement_json job.announcement))

  populate_of_type :
      (t : AnnouncementTypeDto) (i count : ℕ)
      → (jobs : List DummyJob) × (populate hasher announcement_json draws
            (announcement_type_text t)
            i
            count
          ≡ some jobs)
        × (length jobs ≡ count)
        × All (IsDummy t) jobs
  unfolding populate dummy_job
  populate_of_type t i zero = ([], refl, refl, tt)
  populate_of_type t i (suc count) =
      let (a, made, typed) = data_of_type t (draws i) in
      let (rest, added, counted, dummies) = populate_of_type t (i + 1) count in
      (
        dummy_job hasher announcement_json a (announcement_to_queue_name t) ∷ rest,
        rw (made, queue_of_type t, added) refl,
        ap suc counted,
        ((refl, typed, refl), dummies),
      )

  populate_of_other :
      (s : String)
      → ((t : AnnouncementTypeDto) → s ≢ announcement_type_text t)
      → (count : ℕ) → count ≢ 0
      → populate hasher announcement_json draws s 0 count ≡ none
  unfolding populate
  populate_of_other s others zero h = absurd (h refl)
  populate_of_other s others (suc count) h = rw (data_of_other s (draws 0) others) refl

  -- populate adds as many jobs as it is asked for, all to the queue of the announcement type, each
  -- with an announcement of that type under the hash of its text; for a text that is no
  -- announcement type it throws, unless it is asked for none.
  pub populate_lem :
      (queue_type : String) (count : ℕ)
      → ((t : AnnouncementTypeDto) × (queue_type ≡ announcement_type_text t)
          × ((jobs : List DummyJob) × (populate hasher announcement_json draws queue_type 0 count
                ≡ some jobs)
              × (length jobs ≡ count)
              × All (IsDummy t) jobs))
        ⊎ (((t : AnnouncementTypeDto) → queue_type ≢ announcement_type_text t)
            × ((count ≢ 0) → populate hasher announcement_json draws queue_type 0 count ≡ none))
  unfolding populate
  populate_lem queue_type count = elim (type_cases queue_type) [
    | inl (t, e) ↦ inl (
      t,
      e,
      subst
          (λ s.
            (jobs : List DummyJob) × (populate hasher announcement_json draws s 0 count ≡ some jobs)
            × (length jobs ≡ count)
            × All (IsDummy t) jobs)
          (sym e) (populate_of_type t 0 count),
    )
    | inr others ↦ inr (others, populate_of_other queue_type others count)
  ]
