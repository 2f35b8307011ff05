-- ===== src/Nonce/Picking.antt =====
-- What one call of getNextNonce picks and what it reserves.
use content_publishing_servi.Common.{
  ℕ, zero, suc, ◌+◌, ◌-◌, ◌≤◌, ◌<◌, ◌≡◌, ◌⊎◌, inl, inr, none, some, arith, Option, refl, true,
  false, Bool-cases,
}
use native.Mathlib.Decide.{dec_lt}
use content_publishing_servi.Services.Redis.{Redis, is_present}
use content_publishing_servi.Nonce.{
  nonce_key_expire_seconds, key_of, possible_keys_from, get_next_possible_keys,
  increment_nonce_from, get_next_nonce,
}

module _ (redis : Redis) where
  open redis use {Db, view, setex}

  abbrev pub IsTaken : Db → ℕ → Type 0
  IsTaken db n = is_present (view db (key_of n)) ≡ true

  abbrev AllTaken : Db → ℕ → ℕ → ℕ → Type 0
  AllTaken db nonce i o = (m : ℕ) → i ≤ m → m < o → IsTaken db (nonce + m)

  abbrev pub reserve : Db → ℕ → Db
  reserve db n = setex db (key_of n) nonce_key_expire_seconds "1"

  abbrev Picks : Db → ℕ → ℕ → ℕ → Option ℕ × Db → Type 0
  Picks db nonce i rounds result =
      ((o : ℕ) × (i ≤ o)
        × (o < i + rounds)
        × (result ≡ (some (o + 1), reserve db (nonce + o)))
        × (is_present (view db (key_of (nonce + o))) ≡ false)
        × AllTaken db nonce i o)
      ⊎ ((result ≡ (none, db)) × AllTaken db nonce i (i + rounds))

  AllTaken-step :
      (db : Db) (nonce i o : ℕ)
      → IsTaken db (nonce + i)
      → AllTaken db nonce (i + 1) o
      → AllTaken db nonce i o
  AllTaken-step db nonce i o h rest m hm lt = elim (dec_lt i m) [
    | yes later ↦ rest m (omega arith) lt
    | no here ↦ let e : m ≡ i = omega arith in rw e h
  ]

  Picks-step :
      (db : Db) (nonce i rounds : ℕ) {result : Option ℕ × Db}
      → IsTaken db (nonce + i)
      → Picks db nonce (i + 1) rounds result
      → Picks db nonce i (suc rounds) result
  Picks-step db nonce i rounds h (inl (o, low, high, e, free, rest)) =
      inl (o, omega arith, omega arith, e, free, AllTaken-step db nonce i o h rest)
  Picks-step db nonce i rounds h (inr (e, rest)) =
      inr (e, λ m hm lt. AllTaken-step db nonce i (i + 1 + rounds) h rest m hm (omega arith))

  increment_nonce_from-Picks :
      (db : Db) (nonce rounds i : ℕ)
      → Picks db nonce i rounds (
          increment_nonce_from redis db
            (possible_keys_from rounds nonce i)
            nonce_key_expire_seconds
            (i + 1))
  unfolding increment_nonce_from possible_keys_from
  increment_nonce_from-Picks db nonce zero i = inr (refl, λ m h k. absurd (omega arith))
  increment_nonce_from-Picks db nonce (suc rounds) i =
      elim (Bool-cases (is_present (view db (key_of (nonce + i))))) [
        | inl taken ↦
            rw (taken, increment_nonce_from)
              (Picks-step db nonce i rounds taken
                (increment_nonce_from-Picks db nonce rounds (i + 1)))
        | inr free ↦ inl (
          i,
          omega arith,
          omega arith,
          rw (free, increment_nonce_from),
          free,
          λ m h k. absurd (omega arith),
        )
      ]

  -- One call of getNextNonce returns the first number from the chain's nonce on, within fifty,
  -- whose key is free, and leaves that key, and no other, set for two seconds; if all fifty keys
  -- are taken it returns the chain's nonce plus fifty and leaves the server as it was.
  pub get_next_nonce_picks :
      (db : Db) (nonce : ℕ)
      → ((o : ℕ) × (o < 50)
          × (get_next_nonce redis db nonce ≡ (nonce + o, reserve db (nonce + o)))
          × (is_present (view db (key_of (nonce + o))) ≡ false)
          × ((m : ℕ) → m < o → IsTaken db (nonce + m)))
        ⊎ ((get_next_nonce redis db nonce ≡ (nonce + 50, db))
            × ((m : ℕ) → m < 50 → IsTaken db (nonce + m)))
  unfolding get_next_nonce get_next_possible_keys
  get_next_nonce_picks db nonce = elim (increment_nonce_from-Picks db nonce 50 0) [
    | inl (o, low, high, e, free, before) ↦ inl (
      o,
      omega arith,
      rw e (let same : nonce + (o + 1) - 1 ≡ nonce + o = omega arith in rw same),
      free,
      λ m h. before m (omega arith) h,
    )
    | inr (e, before) ↦ inr (rw e refl, λ m h. before m (omega arith) (omega arith))
  ]
