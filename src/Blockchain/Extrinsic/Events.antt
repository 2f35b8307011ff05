-- ===== src/Blockchain/Extrinsic/Events.antt =====
-- The events that signAndSend answers.
use text.Mathlib.TextEquality.{eq_iff}
use content_publishing_servi.Common.{
  String, Option, none, some, List, [], ◌∷◌, true, false, ◌==ₛ◌, if◌then◌else◌, ◌≡◌, refl, ◌∙◌, ap,
  Bool-cases, inl, inr, ◌||◌, arith, ◌⊎◌,
}
use content_publishing_servi.Queues.{get}
use content_publishing_servi.Blockchain.Extrinsic.{
  Event, Submitted, EventMap, event_key, assign, event_map, sign_and_send,
}

-- The last event with a key, or `before` if there is none
unfoldable pub last_event : String → Option Event → List Event → Option Event
unfolding event_key
last_event key before [] = before
last_event key before (e ∷ rest) =
    let last = last_event key (some e) rest in
    let same = last_event key before rest in if event_key e ==ₛ key then last else same

ne_of_two : (j k key : String) → (j ==ₛ k) ≡ false → (j ==ₛ key) ≡ true → (k ==ₛ key) ≡ false
ne_of_two j k key apart found = elim (Bool-cases (k ==ₛ key)) [
  | inl e ↦ ground (arith, eq_iff j k, eq_iff k key, eq_iff j key)
  | inr e ↦ e
]

get-assign :
    (seen : EventMap) (k : String) (e : Event) (key : String)
    → get (assign seen k e) key ≡ (if k ==ₛ key then some e else get seen key)
unfolding assign
get-assign [] k e key = refl
get-assign ((j, f) ∷ rest) k e key = elim (Bool-cases (j ==ₛ k)) [
  | inl same ↦
      let at_k : (j ==ₛ key) ≡ (k ==ₛ key) = ap (λ i. i ==ₛ key) ((eq_iff j k).0 same) in
      elim (Bool-cases (k ==ₛ key)) [
        | inl found ↦ rw (same, at_k, found) refl
        | inr not_k ↦ rw (same, at_k, not_k) refl
      ]
  | inr other ↦ elim (Bool-cases (j ==ₛ key)) [
    | inl found ↦ rw (other, found, ne_of_two j k key other found) refl
    | inr not_j ↦ rw (other, not_j) (get-assign rest k e key)
  ]
]

get-event_map :
    (seen : EventMap) (events : List Event) (key : String)
    → get (event_map seen events) key ≡ last_event key (get seen key) events
unfolding event_map last_event
get-event_map seen [] key = refl
get-event_map seen (e ∷ rest) key =
    get-event_map (assign seen (event_key e) e) rest key
    ∙ rw (get-assign seen (event_key e) e key) (elim (Bool-cases (event_key e ==ₛ key)) [
      | inl found ↦ rw found refl
      | inr other ↦ rw other refl
    ])

-- The events of a report: those of a transaction that is finalized or in a block, else none.
abbrev pub events_of_report : Submitted → List Event
events_of_report r = if r.is_finalized || r.is_in_block then r.events else []

-- signAndSend rejects if the submission does, or if nothing is reported; else it answers the hash of
-- the first report, whatever follows it, and under each key the last event of that report that has
-- it, if the transaction is finalized or in a block by then, and no event if it is not.
pub sign_and_send_lem :
    (answer : Option (List Submitted)) (key : String)
    → (sign_and_send answer ≡ none) × ((answer ≡ none) ⊎ (answer ≡ some []))
      ⊎ ((r : Submitted) × (later : List Submitted) × (events : EventMap) × (answer
            ≡ some (r ∷ later))
          × (sign_and_send answer ≡ some (r.tx_hash, events))
          × (get events key ≡ last_event key none (events_of_report r)))
unfolding sign_and_send last_event
sign_and_send_lem none key = inl (refl, inl refl)
sign_and_send_lem (some []) key = inl (refl, inr refl)
sign_and_send_lem (some (r ∷ later)) key = elim (Bool-cases (r.is_finalized || r.is_in_block)) [
  | inl there ↦ inr (
    r,
    later,
    event_map [] r.events,
    refl,
    rw there refl,
    rw there (get-event_map [] r.events key),
  )
  | inr early ↦ inr (r, later, [], refl, rw early refl, rw early refl)
]
