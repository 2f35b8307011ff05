-- ===== src/Nonce.antt =====
-- Nonces for the transactions: lua/incrementNonce.lua and
-- apps/worker/src/publisher/nonce.service.ts.
pub mod Picking
pub mod Unique
mod Tests
use content_publishing_servi.Common.{
  ℕ, zero, suc, ◌+◌, ◌-◌, String, ◌+++◌, List, [], ◌∷◌, Option, none, some, true, false, show,
  length,
}
use content_publishing_servi.Services.Redis.{Redis, is_present}

-- NUMBER_OF_NONCE_KEYS_TO_CHECK
abbrev pub number_of_nonce_keys_to_check : ℕ
number_of_nonce_keys_to_check = 50

-- NONCE_KEY_EXPIRE_SECONDS
abbrev pub nonce_key_expire_seconds : ℕ
nonce_key_expire_seconds = 2

-- getNonceKey
unfoldable pub get_nonce_key : String → String
get_nonce_key suffix = "chain:nonce:" +++ suffix

abbrev pub key_of : ℕ → String
key_of n = get_nonce_key (show n)

-- The loop of getNextPossibleKeys from `i` on, with the rounds that are left.
unfoldable pub possible_keys_from : ℕ → ℕ → ℕ → List String
possible_keys_from zero current_nonce i = []
possible_keys_from (suc rounds) current_nonce i =
    key_of (current_nonce + i) ∷ possible_keys_from rounds current_nonce (i + 1)

unfoldable pub get_next_possible_keys : ℕ → List String
unfolding possible_keys_from
get_next_possible_keys current_nonce =
    possible_keys_from number_of_nonce_keys_to_check current_nonce 0

module _ (redis : Redis) where
  open redis use {Db, view, setex}

  -- The loop of incrementNonce.lua at the index `i`, over KEYS[i] and the keys after it; the reply
  -- -1 is none.
  unfoldable pub increment_nonce_from : Db → List String → ℕ → ℕ → Option ℕ × Db
  increment_nonce_from db [] expire_in_seconds i = (none, db)
  increment_nonce_from db (next_key ∷ keys) expire_in_seconds i =
      elim (is_present (view db next_key)) [
        | false ↦ (some i, setex db next_key expire_in_seconds "1")
        | true ↦ increment_nonce_from db keys expire_in_seconds (i + 1)
      ]

  -- incrementNonce.lua; keysSize is the number of keys, and at least 1
  unfoldable pub increment_nonce : Db → List String → ℕ → Option ℕ × Db
  unfolding increment_nonce_from
  increment_nonce db keys expire_in_seconds = increment_nonce_from db keys expire_in_seconds 1

  abbrev pub next_nonce_of : ℕ → Option ℕ → ℕ
  next_nonce_of nonce none = nonce + number_of_nonce_keys_to_check
  next_nonce_of nonce (some next_nonce_index) = nonce + next_nonce_index - 1

  -- NonceService.getNextNonce, at the nonce that the chain answers
  unfoldable pub get_next_nonce : Db → ℕ → ℕ × Db
  unfolding increment_nonce
  get_next_nonce db nonce =
      let (next_nonce_index, db') =
        increment_nonce db (get_next_possible_keys nonce) nonce_key_expire_seconds in
      (next_nonce_of nonce next_nonce_index, db')

  -- Calls one after the other, at the nonces that the chain answers.
  unfoldable pub get_next_nonces : Db → List ℕ → List ℕ × Db
  get_next_nonces db [] = ([], db)
  get_next_nonces db (nonce ∷ rest) =
      let (next, db') = get_next_nonce db nonce in
      let (more, db'') = get_next_nonces db' rest in (next ∷ more, db'')
