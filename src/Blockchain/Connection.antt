-- ===== src/Blockchain/Connection.antt =====
-- The connection to the node: onApplicationBootstrap and onApplicationShutdown of
-- libs/common/src/blockchain/blockchain.service.ts.
use text.Mathlib.Text.{starts_with}
use mathlib.Core.Option.{none-ne-some, some-injective}
use mathlib.Core.Path.{subst}
use content_publishing_servi.Common.{
  sym, ◌∙◌, ◌||◌, String, Option, none, some, List, [], ◌∷◌, ◌++◌, Bool, true, false, ◌&&◌,
  if◌then◌else◌, ◌≡◌, refl, Bool-cases, inl, inr,
}

-- new WsProvider(url) and new HttpProvider(url)
pub data Provider : Type 0 where
  ws_provider http_provider : String → Provider

-- The library that connects: what ApiRx.create, ApiPromise.create and their isReady answer
pub record Connector : Type 1 where
  pub Api : Type 0
  pub create_rx : Provider → Option Api
  pub create_promise : Provider → Option Api
  pub is_ready : Api → Bool
  -- whether disconnect succeeds
  pub disconnects : Api → Bool

unfoldable pub provider_of : String → Option Provider
provider_of url =
    if starts_with url "ws"
    then some (ws_provider url)
    else if starts_with url "http"
    then some (http_provider url)
    else none

-- What the start throws
pub data StartError : Type 0 where
  unrecognized_url not_connected not_ready : StartError

module _ (connector : Connector) where
  open connector use {Api, create_rx, create_promise, is_ready, disconnects}

  pub record Connections : Type 0 where
    pub api : Option Api
    pub api_promise : Option Api

  -- Once both are created
  unfoldable pub ready : Api → Api → Connections × Option StartError
  ready api api_promise = (
    record { api = some api; api_promise = some api_promise },
    if is_ready api && is_ready api_promise then none else some not_ready,
  )

  unfoldable pub create_second : Api → Option Api → Connections → Connections × Option StartError
  unfolding ready
  create_second api none st = (record st { api = some api }, some not_connected)
  create_second api (some api_promise) st = ready api api_promise

  unfoldable pub create_both : Provider → Option Api → Connections → Connections × Option StartError
  unfolding create_second
  create_both provider none st = (st, some not_connected)
  create_both provider (some api) st = create_second api (create_promise provider) st

  unfoldable pub connect : Option Provider → Connections → Connections × Option StartError
  unfolding create_both
  connect none st = (st, some unrecognized_url)
  connect (some provider) st = create_both provider (create_rx provider) st

  -- onApplicationBootstrap: the error that it throws, if it throws
  unfoldable pub on_application_bootstrap : String → Connections → Connections × Option StartError
  unfolding connect provider_of
  on_application_bootstrap url st = connect (provider_of url) st

  abbrev present : Option Api → List Api
  present none = []
  present (some api) = api ∷ []

  unfoldable pub all_disconnect : List Api → Bool
  all_disconnect [] = true
  all_disconnect (api ∷ rest) = disconnects api && all_disconnect rest

  -- onApplicationShutdown: the connections that are told to disconnect, and whether it returns
  unfoldable pub on_application_shutdown : Connections → List Api × Bool
  unfolding all_disconnect
  on_application_shutdown st =
      let promises = present st.api ++ present st.api_promise in (promises, all_disconnect promises)

  -- The provider for a URL is of web sockets where it begins with ws, else of HTTP where it begins
  -- with http.
  pub data IsProviderOf (url : String) : Provider → Type 0 where
    of_ws : starts_with url "ws" ≡ true → IsProviderOf url (ws_provider url)
    of_http :
        starts_with url "ws" ≡ false
        → starts_with url "http" ≡ true
        → IsProviderOf url (http_provider url)

  -- The outcomes of a start with no connections before it: the error that it throws, whether the URL
  -- has one of the two schemes, and the connections that a shutdown then tells to disconnect
  pub data Outcome (url : String) : Option StartError → List Api → Type 0 where
    no_scheme :
        (starts_with url "ws" || starts_with url "http") ≡ false
        → Outcome url (some unrecognized_url) []
    no_connection :
        (p : Provider)
        → IsProviderOf url p
        → create_rx p ≡ none
        → Outcome url (some not_connected) []
    one_connection :
        (p : Provider) (api : Api)
        → IsProviderOf url p
        → create_rx p ≡ some api
        → create_promise p ≡ none
        → Outcome url (some not_connected) (api ∷ [])
    not_both_ready :
        (p : Provider) (api api_promise : Api)
        → IsProviderOf url p
        → create_rx p ≡ some api
        → create_promise p ≡ some api_promise
        → (is_ready api && is_ready api_promise) ≡ false
        → Outcome url (some not_ready) (api ∷ api_promise ∷ [])
    both_ready :
        (p : Provider) (api api_promise : Api)
        → IsProviderOf url p
        → create_rx p ≡ some api
        → create_promise p ≡ some api_promise
        → (is_ready api && is_ready api_promise) ≡ true
        → Outcome url none (api ∷ api_promise ∷ [])

  abbrev pub fresh : Connections
  fresh = record { api = none; api_promise = none }

  provider_of-none :
      (url : String)
      → provider_of url ≡ none
      → (starts_with url "ws" || starts_with url "http") ≡ false
  unfolding provider_of
  provider_of-none url e = elim (Bool-cases (starts_with url "ws")) [
    | inl ws ↦ absurd (none-ne-some (ws_provider url) (sym e ∙ rw ws refl))
    | inr not_ws ↦ elim (Bool-cases (starts_with url "http")) [
      | inl http ↦ absurd (none-ne-some (http_provider url) (sym e ∙ rw (not_ws, http) refl))
      | inr not_http ↦ rw (not_ws, not_http) refl
    ]
  ]

  abbrev Ends : String → Connections × Option StartError → Type 0
  Ends url (st, error) = Outcome url error (on_application_shutdown st).0

  provider_of-some : (url : String) (p : Provider) → provider_of url ≡ some p → IsProviderOf url p
  unfolding provider_of
  provider_of-some url p e = elim (Bool-cases (starts_with url "ws")) [
    | inl ws ↦ subst (IsProviderOf url) (some-injective _ _ (sym (rw ws refl) ∙ e)) (of_ws ws)
    | inr not_ws ↦ elim (Bool-cases (starts_with url "http")) [
      | inl http ↦
          subst (IsProviderOf url) (some-injective _ _ (sym (rw (not_ws, http) refl) ∙ e))
            (of_http not_ws http)
      | inr not_http ↦ absurd (none-ne-some p (sym (rw (not_ws, not_http) refl) ∙ e))
    ]
  ]

  create_both-Ends :
      (url : String) (p : Provider) (rx promise : Option Api)
      → IsProviderOf url p
      → create_rx p ≡ rx
      → create_promise p ≡ promise
      → Ends url (create_both p rx fresh)
  unfolding create_both on_application_shutdown
  create_both-Ends url p none promise e e1 e2 = no_connection p e e1
  create_both-Ends url p (some api) none e e1 e2 = rw (e2) (one_connection p api e e1 e2)
  create_both-Ends url p (some api) (some api_promise) e e1 e2 =
      elim (Bool-cases (is_ready api && is_ready api_promise)) [
        | inl both ↦ rw (e2, both) (both_ready p api api_promise e e1 e2 both)
        | inr late ↦ rw (e2, late) (not_both_ready p api api_promise e e1 e2 late)
      ]

  connect-Ends :
      (url : String) (o : Option Provider) → provider_of url ≡ o → Ends url (connect o fresh)
  unfolding connect on_application_shutdown
  connect-Ends url none e = no_scheme (provider_of-none url e)
  connect-Ends url (some p) e =
      create_both-Ends url p (create_rx p) (create_promise p) (provider_of-some url p e) refl refl

  -- A start of the service throws that the URL is unrecognized exactly if it begins with neither ws
  -- nor http, and returns exactly if both connections are created and ready; the shutdown after it
  -- tells exactly the connections that it created to disconnect. They are made over web sockets if
  -- the URL begins with ws, else over HTTP.
  pub on_application_bootstrap-Outcome :
      (url : String)
      → let (st, error) = on_application_bootstrap url fresh in
        Outcome url error (on_application_shutdown st).0
  unfolding on_application_bootstrap
  on_application_bootstrap-Outcome url = connect-Ends url (provider_of url) refl
