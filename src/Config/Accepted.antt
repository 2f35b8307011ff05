-- ===== src/Config/Accepted.antt =====
-- What holds of a configuration that the schema of env.config.ts lets through.
use mathlib.Core.Path.{subst}
use mathlib.Core.Option.{some-injective}
use content_publishing_servi.Common.{ℕ, none, some, Bool, true, false, >>=-some, ◌≡◌, ◌⊎◌}
use content_publishing_servi.Config.{
  Joi, Environment, Variables, required_text, big_int_of, is_negative, provider_id_rule,
  required_number, default_number, uri_rule, capacity_limit_rule, validate, chain_environment, Uris,
  Numbers, uri_rules, number_rules,
}
use content_publishing_servi.Config.Rules.{
  provider_id_rule-some, required_number-some, default_number-some, uri_rule-some,
}
use content_publishing_servi.Config.Limits.{IsLimit, capacity_limit_rule-IsLimit}

module _ (joi : Joi) where
  open joi use {Number, number, of_natural, at_least, at_most, is_uri, parse_limit}

  abbrev pub AreUris : Uris joi → Type 0
  AreUris u =
      (is_uri u.ipfs_endpoint ≡ true)
      × (is_uri u.redis_url ≡ true)
      × (is_uri u.frequency_url ≡ true)

  uri_rules-AreUris : (env : Environment) (u : Uris joi) → uri_rules joi env ≡ some u → AreUris u
  unfolding uri_rules
  uri_rules-AreUris env u e =
      let (endpoint, h, e) = >>=-some (uri_rule joi (env "IPFS_ENDPOINT")) _ u e in
      let (redis, h', e) = >>=-some (uri_rule joi (env "REDIS_URL")) _ u e in
      let (frequency, h'', e) = >>=-some (uri_rule joi (env "FREQUENCY_URL")) _ u e in
      subst AreUris (some-injective _ _ e) (
        uri_rule-some joi (env "IPFS_ENDPOINT") endpoint h,
        uri_rule-some joi (env "REDIS_URL") redis h',
        uri_rule-some joi (env "FREQUENCY_URL") frequency h'',
      )

  pub record AreInRange (env : Environment) (n : Numbers joi) : Type 0 where
    pub at_size : at_least n.file_upload_max_size_in_bytes 1 ≡ true
    pub at_port :
        ((env "API_PORT" ≡ none) × (n.api_port ≡ of_natural 3000)) ⊎ (at_least n.api_port 0 ≡ true)
    pub at_expiration : at_least n.asset_expiration_interval_seconds 1 ≡ true
    pub at_interval : at_least n.batch_interval_seconds 1 ≡ true
    pub at_count : at_least n.batch_max_count 1 ≡ true
    pub at_delay : at_least n.asset_upload_verification_delay_seconds 0 ≡ true

  number_rules-AreInRange :
      (env : Environment) (n : Numbers joi) → number_rules joi env ≡ some n → AreInRange env n
  unfolding number_rules
  number_rules-AreInRange env n e =
      let (size, h, e) =
        >>=-some (required_number joi 1 (env "FILE_UPLOAD_MAX_SIZE_IN_BYTES")) _ n e in
      let (port, h1, e) = >>=-some (default_number joi 0 3000 (env "API_PORT")) _ n e in
      let (expiry, h2, e) =
        >>=-some (required_number joi 1 (env "ASSET_EXPIRATION_INTERVAL_SECONDS")) _ n e in
      let (interval, h3, e) =
        >>=-some (required_number joi 1 (env "BATCH_INTERVAL_SECONDS")) _ n e in
      let (count, h4, e) = >>=-some (required_number joi 1 (env "BATCH_MAX_COUNT")) _ n e in
      let (delay, h5, e) =
        >>=-some (required_number joi 0 (env "ASSET_UPLOAD_VERIFICATION_DELAY_SECONDS")) _ n e in
      subst (AreInRange env) (some-injective _ _ e) (record {
        at_size = required_number-some joi 1 _ size h;
        at_port = default_number-some joi 0 3000 (env "API_PORT") port h1;
        at_expiration = required_number-some joi 1 _ expiry h2;
        at_interval = required_number-some joi 1 _ interval h3;
        at_count = required_number-some joi 1 _ count h4;
        at_delay = required_number-some joi 0 _ delay h5;
      })

  -- The variables that are used have the documented ranges.
  pub record IsSound (env : Environment) (c : Variables joi) : Type 0 where
    pub at_uris : AreUris c.uris
    pub at_provider : (n : Bool × ℕ) × (big_int_of c.provider_id ≡ some n) × (is_negative n ≡ false)
    pub at_numbers : AreInRange env c.numbers
    pub at_limit : IsLimit joi c.capacity_limit

  -- A configuration that the schema lets through has URIs for the three endpoints, a provider id that
  -- BigInt reads as a number that is not below zero, a batch interval, a batch size, an expiration
  -- and a file size of at least 1, a delay of at least 0, a port of at least 0, or 3000 where none is
  -- given, and as capacity limit the JSON text of an amount of at least 0, or of a percentage from 0
  -- to 100, with nothing else in it.
  pub validate-IsSound :
      (env : Environment) (c : Variables joi) → validate joi env ≡ some c → IsSound env c
  unfolding validate
  validate-IsSound env c e =
      let (text, _, e) = >>=-some (required_text (env "CHAIN_ENVIRONMENT")) _ c e in
      let (chain, _, e) = >>=-some (chain_environment text) _ c e in
      let (uris, h, e) = >>=-some (uri_rules joi env) _ c e in
      let (gateway, _, e) = >>=-some (required_text (env "IPFS_GATEWAY_URL")) _ c e in
      let (provider, h1, e) = >>=-some (provider_id_rule (env "PROVIDER_ID")) _ c e in
      let (seed, _, e) = >>=-some (required_text (env "PROVIDER_ACCOUNT_SEED_PHRASE")) _ c e in
      let (numbers, h2, e) = >>=-some (number_rules joi env) _ c e in
      let (limit, h3, e) = >>=-some (capacity_limit_rule joi (env "CAPACITY_LIMIT")) _ c e in
      subst (IsSound env) (some-injective _ _ e) (record {
        at_uris = uri_rules-AreUris env uris h;
        at_provider = provider_id_rule-some (env "PROVIDER_ID") provider h1;
        at_numbers = number_rules-AreInRange env numbers h2;
        at_limit = capacity_limit_rule-IsLimit joi (env "CAPACITY_LIMIT") limit h3;
      })
