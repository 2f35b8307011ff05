-- ===== src/Config/Tests.antt =====
-- A configuration like that of env.template, with a checker of the rules on natural numbers.
use content_publishing_servi.Common.{
  ℕ, leb, String, Option, none, some, true, false, ◌==ₛ◌, if◌then◌else◌, ◌≡◌, refl, big_int,
}
use content_publishing_servi.Queues.{rococo}
use content_publishing_servi.Config.{
  LimitJson, Joi, Environment, Variables, provider_id_rule, validate,
}
use content_publishing_servi.Config.Accepted.{IsSound, validate-IsSound}

abbrev percentage_text : String
percentage_text = "{\"type\":\"percentage\", \"value\":80}"

abbrev too_much_text : String
too_much_text = "{\"type\":\"percentage\", \"value\":180}"

abbrev limit_of : ℕ → LimitJson ℕ
limit_of n = record { limit_type = some "percentage"; value = some n; has_others = false }

abbrev parse : String → Option (LimitJson ℕ)
parse text =
    if text ==ₛ percentage_text
    then some (limit_of 80)
    else if text ==ₛ too_much_text
    then some (limit_of 180)
    else none

abbrev sample_joi : Joi
sample_joi = record {
  Number = ℕ;
  number = big_int;
  of_natural = λ n. n;
  at_least = λ n low. leb low n;
  at_most = λ n high. leb n high;
  is_uri = λ s. if s ==ₛ "" then false else true;
  parse_limit = parse;
}

abbrev with_limit : String → Environment
with_limit limit name =
    if name ==ₛ "CHAIN_ENVIRONMENT"
    then some "rococo"
    else if name ==ₛ "IPFS_ENDPOINT"
    then some "http://127.0.0.1:5001"
    else if name ==ₛ "REDIS_URL"
    then some "redis://127.0.0.1:6379"
    else if name ==ₛ "FREQUENCY_URL"
    then some "ws://127.0.0.1:9944"
    else if name ==ₛ "IPFS_GATEWAY_URL"
    then some "http://127.0.0.1:8080/ipfs/[CID]"
    else if name ==ₛ "PROVIDER_ID"
    then some "1"
    else if name ==ₛ "PROVIDER_ACCOUNT_SEED_PHRASE"
    then some "//Alice"
    else if name ==ₛ "FILE_UPLOAD_MAX_SIZE_IN_BYTES"
    then some "2000000000"
    else if name ==ₛ "ASSET_EXPIRATION_INTERVAL_SECONDS"
    then some "300"
    else if name ==ₛ "BATCH_INTERVAL_SECONDS"
    then some "12"
    else if name ==ₛ "BATCH_MAX_COUNT"
    then some "1000"
    else if name ==ₛ "ASSET_UPLOAD_VERIFICATION_DELAY_SECONDS"
    then some "5"
    else if name ==ₛ "CAPACITY_LIMIT"
    then some limit
    else none

abbrev sample_variables : Variables sample_joi
sample_variables = record {
  environment = rococo;
  uris = record {
    ipfs_endpoint = "http://127.0.0.1:5001";
    redis_url = "redis://127.0.0.1:6379";
    frequency_url = "ws://127.0.0.1:9944";
  };
  ipfs_gateway_url = "http://127.0.0.1:8080/ipfs/[CID]";
  ipfs_basic_auth_user = "";
  ipfs_basic_auth_secret = "";
  provider_id = "1";
  provider_account_seed_phrase = "//Alice";
  capacity_limit = percentage_text;
  numbers = record {
    file_upload_max_size_in_bytes = 2000000000;
    api_port = 3000;
    asset_expiration_interval_seconds = 300;
    batch_interval_seconds = 12;
    batch_max_count = 1000;
    asset_upload_verification_delay_seconds = 5;
  };
}

-- The variables of the sample pass.
sample_passes : validate sample_joi (with_limit percentage_text) ≡ some sample_variables
unfolding validate big_int
sample_passes = refl

-- A percentage above 100 is refused.
too_much_refused : validate sample_joi (with_limit too_much_text) ≡ none
unfolding validate big_int
too_much_refused = refl

-- The provider id 0 passes, and so does the empty text.
zero_passes : (provider_id_rule (some "0") ≡ some "0") × (provider_id_rule (some "") ≡ some "")
unfolding provider_id_rule big_int
zero_passes = (refl, refl)

-- A negative one is refused.
negative_refused : provider_id_rule (some "-1") ≡ none
unfolding provider_id_rule big_int
negative_refused = refl

validate-IsSound_example : IsSound sample_joi (with_limit percentage_text) sample_variables
validate-IsSound_example =
    validate-IsSound sample_joi (with_limit percentage_text) sample_variables sample_passes
