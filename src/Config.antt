-- ===== src/Config.antt =====
-- The configuration: libs/common/src/config/env.config.ts and config.service.ts.
mod Rules
mod Limits
pub mod Accepted
mod Tests
use Prim.Native.Char.{Char, code}
use Prim.Native.String
use content_publishing_servi.Common.{
  ℕ, String, Option, none, some, Bool, true, false, not, ◌&&◌, ◌||◌, ◌==ₛ◌, ◌==◌, if◌then◌else◌,
  ◌>>=◌, big_int,
}
use content_publishing_servi.Queues.{ChainEnvironment, mainnet, rococo, testnet_paseo, dev}

-- The value of CAPACITY_LIMIT as JSON.parse gives it: an object's `type`, where that is a text, its
-- `value` as Joi reads a number of it, and whether it has other properties
pub record LimitJson (Number : Type 0) : Type 0 where
  pub limit_type : Option String
  pub value : Option Number
  pub has_others : Bool

-- What the program calls of Joi and of JSON: the texts that are read as numbers, min and max, the
-- texts that are URIs, and the objects that JSON texts stand for (none where the text is none or
-- stands for no object)
pub record Joi : Type 1 where
  pub Number : Type 0
  pub number : String → Option Number
  pub of_natural : ℕ → Number
  pub at_least : Number → ℕ → Bool
  pub at_most : Number → ℕ → Bool
  pub is_uri : String → Bool
  pub parse_limit : String → Option (LimitJson Number)

-- process.env: a variable may be missing
abbrev pub Environment : Type 0
Environment = String → Option String

-- The texts of enum ChainEnvironment
unfoldable pub chain_environment : String → Option ChainEnvironment
chain_environment text =
    if text ==ₛ "dev"
    then some dev
    else if text ==ₛ "rococo"
    then some rococo
    else if text ==ₛ "testnet"
    then some testnet_paseo
    else if text ==ₛ "mainnet"
    then some mainnet
    else none

-- Joi.string().required(): the empty text is refused
unfoldable pub required_text : Option String → Option String
required_text none = none
required_text (some s) = if s ==ₛ "" then none else some s

-- Joi.string().allow('').default('')
unfoldable pub optional_text : Option String → String
optional_text none = ""
optional_text (some s) = s

-- BigInt of a text, as its sign and its absolute value; the digits after a minus sign are not missing
unfoldable pub big_int_of : String → Option (Bool × ℕ)
big_int_of String.[] = some (false, 0)
big_int_of (String.◌∷◌ c rest) =
    if code c == 45
    then if rest ==ₛ "" then none else elim (big_int rest) [ none ↦ none | some n ↦ some (true, n) ]
    else elim (big_int (String.◌∷◌ c rest)) [ none ↦ none | some n ↦ some (false, n) ]

-- Whether id < 0
abbrev pub is_negative : Bool × ℕ → Bool
is_negative (sign, n) = sign && not (n == 0)

unfoldable pub check_provider_id : String → Option (Bool × ℕ) → Option String
check_provider_id value none = none
check_provider_id value (some id) = if is_negative id then none else some value

-- The custom rule of PROVIDER_ID
unfoldable pub provider_id_rule : Option String → Option String
unfolding check_provider_id big_int_of
provider_id_rule none = none
provider_id_rule (some value) = check_provider_id value (big_int_of value)

module _ (joi : Joi) where
  open joi use {Number, number, of_natural, at_least, at_most, is_uri, parse_limit}

  -- The variables of ConfigEnvironmentVariables that are URIs
  pub record Uris : Type 0 where
    pub ipfs_endpoint : String
    pub redis_url : String
    pub frequency_url : String

  -- Those that are numbers
  pub record Numbers : Type 0 where
    pub file_upload_max_size_in_bytes : Number
    pub api_port : Number
    pub asset_expiration_interval_seconds : Number
    pub batch_interval_seconds : Number
    pub batch_max_count : Number
    pub asset_upload_verification_delay_seconds : Number

  -- ConfigEnvironmentVariables
  pub record Variables : Type 0 where
    pub environment : ChainEnvironment
    pub uris : Uris
    pub ipfs_gateway_url : String
    pub ipfs_basic_auth_user : String
    pub ipfs_basic_auth_secret : String
    pub provider_id : String
    pub provider_account_seed_phrase : String
    pub capacity_limit : String
    pub numbers : Numbers

  unfoldable pub min_rule : ℕ → Option Number → Option Number
  min_rule low none = none
  min_rule low (some n) = if at_least n low then some n else none

  -- Joi.number().min(low).required()
  unfoldable pub required_number : ℕ → Option String → Option Number
  unfolding min_rule
  required_number low none = none
  required_number low (some s) = min_rule low (number s)

  -- Joi.number().min(low).default(value)
  unfoldable pub default_number : ℕ → ℕ → Option String → Option Number
  unfolding min_rule
  default_number low value none = some (of_natural value)
  default_number low value (some s) = min_rule low (number s)

  -- Joi.string().uri().required()
  unfoldable pub uri_rule : Option String → Option String
  unfolding required_text
  uri_rule s = do uri ← required_text s; if is_uri uri then some uri else none

  -- The conditional rule of `value`
  unfoldable pub is_limit_value : String → Number → Bool
  is_limit_value limit_type value =
      if limit_type ==ₛ "percentage"
      then at_least value 0 && at_most value 100
      else at_least value 0

  -- The schema of the limit, whose pattern is /^(percentage|amount)$/
  unfoldable pub is_limit : LimitJson Number → Option String → Option Number → Bool
  unfolding is_limit_value
  is_limit limit none value = false
  is_limit limit (some limit_type) none = false
  is_limit limit (some limit_type) (some value) =
      (limit_type ==ₛ "percentage" || limit_type ==ₛ "amount")
      && is_limit_value limit_type value
      && not (limit.has_others)

  unfoldable pub check_limit : String → Option (LimitJson Number) → Option String
  unfolding is_limit
  check_limit value none = none
  check_limit value (some limit) =
      if is_limit limit limit.limit_type limit.value then some value else none

  -- The custom rule of CAPACITY_LIMIT
  unfoldable pub capacity_limit_rule : Option String → Option String
  unfolding check_limit
  capacity_limit_rule s = do value ← required_text s; check_limit value (parse_limit value)

  unfoldable pub uri_rules : Environment → Option Uris
  unfolding uri_rule
  uri_rules env = do
    ipfs_endpoint ← uri_rule (env "IPFS_ENDPOINT")
    redis_url ← uri_rule (env "REDIS_URL")
    frequency_url ← uri_rule (env "FREQUENCY_URL")
    some (record {
      ipfs_endpoint = ipfs_endpoint;
      redis_url = redis_url;
      frequency_url = frequency_url;
    })

  unfoldable pub number_rules : Environment → Option Numbers
  unfolding required_number default_number
  number_rules env = do
    file_size ← required_number 1 (env "FILE_UPLOAD_MAX_SIZE_IN_BYTES")
    port ← default_number 0 3000 (env "API_PORT")
    expiration ← required_number 1 (env "ASSET_EXPIRATION_INTERVAL_SECONDS")
    batch_interval ← required_number 1 (env "BATCH_INTERVAL_SECONDS")
    batch_count ← required_number 1 (env "BATCH_MAX_COUNT")
    verification_delay ← required_number 0 (env "ASSET_UPLOAD_VERIFICATION_DELAY_SECONDS")
    some (record {
      file_upload_max_size_in_bytes = file_size;
      api_port = port;
      asset_expiration_interval_seconds = expiration;
      batch_interval_seconds = batch_interval;
      batch_max_count = batch_count;
      asset_upload_verification_delay_seconds = verification_delay;
    })

  -- The variables that the schema lets through, or none if it refuses one. Its rules do not depend on
  -- one another.
  unfoldable pub validate : Environment → Option Variables
  unfolding chain_environment required_text optional_text provider_id_rule uri_rules number_rules
      capacity_limit_rule
  validate env = do
    environment_text ← required_text (env "CHAIN_ENVIRONMENT")
    environment ← chain_environment environment_text
    uris ← uri_rules env
    ipfs_gateway_url ← required_text (env "IPFS_GATEWAY_URL")
    provider_id ← provider_id_rule (env "PROVIDER_ID")
    seed_phrase ← required_text (env "PROVIDER_ACCOUNT_SEED_PHRASE")
    numbers ← number_rules env
    limit ← capacity_limit_rule (env "CAPACITY_LIMIT")
    some (record {
      environment = environment;
      uris = uris;
      ipfs_gateway_url = ipfs_gateway_url;
      ipfs_basic_auth_user = optional_text (env "IPFS_BASIC_AUTH_USER");
      ipfs_basic_auth_secret = optional_text (env "IPFS_BASIC_AUTH_SECRET");
      provider_id = provider_id;
      provider_account_seed_phrase = seed_phrase;
      capacity_limit = limit;
      numbers = numbers;
    })
