-- ===== src/Blockchain/Extrinsic/Tests.antt =====
-- A transaction that is in a block with two events of one name.
use content_publishing_servi.Common.{String, none, some, List, [], ◌∷◌, true, false, ◌≡◌, refl, ◌⊎◌}
use content_publishing_servi.Queues.{get}
use content_publishing_servi.Blockchain.Extrinsic.{Event, Submitted, EventMap, sign_and_send}
use content_publishing_servi.Blockchain.Extrinsic.Events.{
  last_event, events_of_report, sign_and_send_lem,
}

abbrev stored : String → Event
stored payload = record { section = "messages"; method = "MessagesStored"; payload = payload }

abbrev in_block : Submitted
in_block = record {
  is_finalized = false;
  is_in_block = true;
  events = stored "a" ∷ stored "b" ∷ [];
  tx_hash = "0x1";
}

keeps_the_last :
    sign_and_send (some (in_block ∷ []))
    ≡ some ("0x1", ("messages.MessagesStored", stored "b") ∷ [])
unfolding sign_and_send
keeps_the_last = refl

sign_and_send_lem_example :
    ((sign_and_send (some (in_block ∷ [])) ≡ none)
      × ((some (in_block ∷ []) ≡ none) ⊎ (some (in_block ∷ []) ≡ some [])))
    ⊎ ((r : Submitted) × (later : List Submitted) × (events : EventMap) × (some (in_block ∷ [])
          ≡ some (r ∷ later))
        × (sign_and_send (some (in_block ∷ [])) ≡ some (r.tx_hash, events))
        × (get events "messages.MessagesStored"
            ≡ last_event "messages.MessagesStored" none (events_of_report r)))
sign_and_send_lem_example = sign_and_send_lem (some (in_block ∷ [])) "messages.MessagesStored"
