-- ===== src/Blockchain/Tests.antt =====
-- A chain of two blocks: both list the transaction "t", which ends with a success in the first.
use content_publishing_servi.Common.{
  ℕ, String, Option, none, some, List, [], ◌∷◌, true, All, ◌≡◌, refl, if◌then◌else◌, ◌==ₛ◌, ◌==◌,
}
use content_publishing_servi.Blockchain.Connection.{
  Connector, Provider, ws_provider, Outcome, on_application_bootstrap, on_application_shutdown,
  fresh, StartError, on_application_bootstrap-Outcome,
}
use content_publishing_servi.Blockchain.Crawl.{Chain, Receipt, ChainEvent, crawl_block_list_for_tx}
use content_publishing_servi.Blockchain.Search.{
  IsReadable, Reports, first_holder, crawl_block_list_for_tx-first_holder,
}

abbrev event : String → String → Option ℕ → ChainEvent
event section method withdrawn = record {
  applied_to = some 1;
  section = section;
  method = method;
  withdrawn = withdrawn;
  failed = none;
}

abbrev pub sample_chain : Chain
sample_chain = record {
  get_block_hash = λ n. some (if n == 7 then "seven" else "eight");
  extrinsic_hashes = λ h. some (if h ==ₛ "seven" then "s" ∷ "t" ∷ [] else "t" ∷ []);
  epoch_at = λ h. some 3;
  events_at = λ h. some (
      event "capacity" "CapacityWithdrawn" (some 40) ∷ event "system" "ExtrinsicSuccess" none ∷ []);
}

abbrev pub success : List (String × String)
success = ("system", "ExtrinsicSuccess") ∷ []

abbrev readable : All (IsReadable sample_chain) (7 ∷ 8 ∷ [])
readable = (
  record {
    hash = "seven";
    extrinsics = "s" ∷ "t" ∷ [];
    epoch = 3;
    hash_eq = refl;
    extrinsics_eq = refl;
    epoch_eq = refl;
  },
  (
    record {
      hash = "eight";
      extrinsics = "t" ∷ [];
      epoch = 3;
      hash_eq = refl;
      extrinsics_eq = refl;
      epoch_eq = refl;
    },
    tt,
  ),
)

crawl_runs :
    crawl_block_list_for_tx sample_chain "t" (7 ∷ 8 ∷ []) success
    ≡ some (record {
      found = true;
      success = true;
      block_hash = some "seven";
      capacity_epoch = some 3;
      capacity_withdrawn = none;
      capacity_with_drawn = some 40;
      error = none;
    })
unfolding crawl_block_list_for_tx
crawl_runs = refl

crawl_block_list_for_tx-first_holder_example :
    (r : Receipt) × (crawl_block_list_for_tx sample_chain "t" (7 ∷ 8 ∷ []) success ≡ some r)
    × Reports r (first_holder sample_chain "t" (7 ∷ 8 ∷ []) readable)
crawl_block_list_for_tx-first_holder_example =
    crawl_block_list_for_tx-first_holder sample_chain "t" success (7 ∷ 8 ∷ []) readable

-- Connections are their providers, and the reactive one cannot be created over HTTP.
abbrev over_ws : Provider → Option Provider
over_ws (ws_provider url) = some (ws_provider url)
over_ws (Provider.http_provider url) = none

abbrev sample_connector : Connector
sample_connector = record {
  Api = Provider;
  create_rx = over_ws;
  create_promise = λ p. some p;
  is_ready = λ p. true;
  disconnects = λ p. true;
}

on_application_bootstrap-Outcome_example :
    let (st, error) =
      on_application_bootstrap sample_connector "ws://127.0.0.1:9944" (fresh sample_connector) in
    Outcome sample_connector "ws://127.0.0.1:9944" error
      (on_application_shutdown sample_connector st).0
on_application_bootstrap-Outcome_example =
    on_application_bootstrap-Outcome sample_connector "ws://127.0.0.1:9944"

-- Over web sockets two connections are made, over HTTP none, and the service does not start.
starts :
    ((on_application_bootstrap sample_connector "ws://127.0.0.1:9944" (fresh sample_connector)).1
      ≡ none)
    × ((on_application_bootstrap sample_connector "http://127.0.0.1" (fresh sample_connector)).1
        ≡ some StartError.not_connected)
unfolding on_application_bootstrap
starts = (refl, refl)
