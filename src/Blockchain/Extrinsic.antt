-- ===== src/Blockchain/Extrinsic.antt =====
-- Extrinsic.signAndSend of libs/common/src/blockchain/extrinsic.ts: the events of a transaction by their
-- names.
pub mod Events
mod Tests
use content_publishing_servi.Common.{
  String, ◌+++◌, Option, none, some, List, [], ◌∷◌, Bool, ◌||◌, ◌==ₛ◌, if◌then◌else◌,
}

-- An event of a transaction; `payload` stands for its data
pub record Event : Type 0 where
  pub section : String
  pub method : String
  pub payload : String

-- What the node reports of a transaction
pub record Submitted : Type 0 where
  pub is_finalized : Bool
  pub is_in_block : Bool
  pub events : List Event
  pub tx_hash : String

-- EventMap: the properties of an object with their values
abbrev pub EventMap : Type 0
EventMap = List (String × Event)

unfoldable pub event_key : Event → String
event_key e = e.section +++ ("." +++ e.method)

-- eventMap[key] = event; a property that is there keeps its place
unfoldable pub assign : EventMap → String → Event → EventMap
assign [] key event = (key, event) ∷ []
assign ((k, e) ∷ rest) key event =
    let later = assign rest key event in if k ==ₛ key then (k, event) ∷ rest else (k, e) ∷ later

unfoldable pub event_map : EventMap → List Event → EventMap
unfolding assign event_key
event_map seen [] = seen
event_map seen (e ∷ rest) = event_map (assign seen (event_key e) e) rest

-- What `then` makes of the first report
unfoldable pub report_of : Submitted → String × EventMap
unfolding event_map
report_of r =
    if r.is_finalized || r.is_in_block then (r.tx_hash, event_map [] r.events) else (r.tx_hash, [])

-- signAndSend at the reports that the node sends, in their order: firstValueFrom takes the first, and
-- rejects where there is none. A submission that is rejected is none.
unfoldable pub sign_and_send : Option (List Submitted) → Option (String × EventMap)
unfolding report_of
sign_and_send none = none
sign_and_send (some []) = none
sign_and_send (some (first ∷ rest)) = some (report_of first)
