-- ===== src/Nonce/Unique.antt =====
-- Calls of getNextNonce one after the other do not return one nonce twice.
use mathlib.Core.Bool.{false≢true}
use native.Mathlib.Decide.{dec_lt}
use text.Mathlib.TextLemmas.{append_cancel_left}
use text.Mathlib.TextPositions.{eq_refl}
use content_publishing_servi.Common.{
  ℕ, zero, suc, ◌+◌, ◌≤◌, ◌<◌, ◌≡◌, ◌≢◌, inl, inr, List, [], ◌∷◌, arith, Bool, true, false, refl,
  ap, ◌==ₛ◌, ==-false, show, show_injective, sym, ◌∙◌,
}
use content_publishing_servi.Services.Redis.{Redis, is_present}
use content_publishing_servi.Nonce.{get_nonce_key, key_of, get_next_nonce, get_next_nonces}
use content_publishing_servi.Nonce.Picking.{reserve, get_next_nonce_picks}

key_of-==-false : (m n : ℕ) → m ≢ n → (key_of m ==ₛ key_of n) ≡ false
unfolding get_nonce_key
key_of-==-false m n h =
    ==-false (key_of m) (key_of n)
      λ e. h (show_injective m n (append_cancel_left "chain:nonce:" (show m) (show n) e))

abbrev pub count_up : ℕ → ℕ → List ℕ
count_up n zero = []
count_up n (suc k) = n ∷ count_up (n + 1) k

abbrev pub replicate : ℕ → ℕ → List ℕ
replicate zero n = []
replicate (suc k) n = n ∷ replicate k n

module _ (redis : Redis) where
  open redis use {Db, view, setex, view-setex}

  abbrev present : Db → ℕ → Bool
  present db n = is_present (view db (key_of n))

  present-reserve_self : (db : Db) (n : ℕ) → present (reserve redis db n) n ≡ true
  present-reserve_self db n = simp (view-setex, eq_refl)

  present-reserve_ne : (db : Db) (n m : ℕ) → n ≢ m → present (reserve redis db n) m ≡ present db m
  present-reserve_ne db n m h = simp (view-setex, key_of-==-false n m h)

  reserved-ne :
      (db : Db) (n later : ℕ)
      → n < later + 50
      → (get_next_nonce redis (reserve redis db n) later).0 ≢ n
  reserved-ne db n later h same = elim (get_next_nonce_picks redis (reserve redis db n) later) [
    | inl (o, _, e, free, _) ↦
        let at_n : later + o ≡ n = sym (ap (λ (r : ℕ × Db). r.0) e) ∙ same in
        false≢true (sym free ∙ ap (present (reserve redis db n)) at_n ∙ present-reserve_self db n)
    | inr (e, _) ↦ absurd (omega (arith, ap (λ (r : ℕ × Db). r.0) e))
  ]

  -- If a call returned a nonce whose key it had found free, then the next call does not return
  -- that nonce while the key lasts, as long as the chain's nonce has not gone back.
  pub get_next_nonce_fresh :
      (db : Db) (nonce later : ℕ)
      → nonce ≤ later
      → (get_next_nonce redis db nonce).0 < nonce + 50
      → (get_next_nonce redis (get_next_nonce redis db nonce).1 later).0
        ≢ (get_next_nonce redis db nonce).0
  get_next_nonce_fresh db nonce later h found = elim (get_next_nonce_picks redis db nonce) [
    | inl (o, _, e, _, _) ↦
        rw e (reserved-ne db (nonce + o) later (omega (arith, ap (λ (r : ℕ × Db). r.0) e)))
    | inr (e, _) ↦ absurd (omega (arith, ap (λ (r : ℕ × Db). r.0) e))
  ]

  -- The first `j` of the fifty keys are taken and the others are free.
  record Front (db : Db) (nonce j : ℕ) : Type 0 where
    taken : (m : ℕ) → m < j → present db (nonce + m) ≡ true
    free : (m : ℕ) → j ≤ m → m < 50 → present db (nonce + m) ≡ false

  Front-is :
      (db : Db) (nonce j o : ℕ)
      → j < 50
      → Front db nonce j
      → present db (nonce + o) ≡ false
      → ((m : ℕ) → m < o → present db (nonce + m) ≡ true)
      → o ≡ j
  Front-is db nonce j o h front free before = elim (dec_lt o j) [
    | yes low ↦ absurd (false≢true (sym free ∙ front.taken o low))
    | no high ↦ elim (dec_lt j o) [
      | yes past ↦ absurd (false≢true (sym (front.free j (omega arith) h) ∙ before j past))
      | no here ↦ omega arith
    ]
  ]

  get_next_nonce-Front :
      (db : Db) (nonce j : ℕ)
      → j < 50
      → Front db nonce j
      → get_next_nonce redis db nonce ≡ (nonce + j, reserve redis db (nonce + j))
  get_next_nonce-Front db nonce j h front = elim (get_next_nonce_picks redis db nonce) [
    | inl (o, lt, e, free, before) ↦
        e
        ∙ ap (λ m. (nonce + m, reserve redis db (nonce + m)))
            (Front-is db nonce j o h front free before)
    | inr (_, before) ↦ absurd (false≢true (sym (front.free j (omega arith) h) ∙ before j h))
  ]

  reserve-Front :
      (db : Db) (nonce j : ℕ)
      → Front db nonce j
      → Front (reserve redis db (nonce + j)) nonce (j + 1)
  reserve-Front db nonce j front = record {
    taken = λ m lt. elim (dec_lt m j) [
      | yes low ↦
          present-reserve_ne db (nonce + j) (nonce + m) (λ e. omega arith) ∙ front.taken m low
      | no high ↦ let e : m ≡ j = omega arith in rw e (present-reserve_self db (nonce + j))
    ];
    free = λ m low lt.
        present-reserve_ne db (nonce + j) (nonce + m) (λ e. omega arith)
        ∙ front.free m (omega arith) lt;
  }

  get_next_nonces-Front :
      (db : Db) (nonce j k : ℕ)
      → j + k ≤ 50
      → Front db nonce j
      → (get_next_nonces redis db (replicate k nonce)).0 ≡ count_up (nonce + j) k
  unfolding get_next_nonces
  get_next_nonces-Front db nonce j zero h front = refl
  get_next_nonces-Front db nonce j (suc k) h front =
      rw (get_next_nonce-Front db nonce j (omega arith) front) (
        ap (λ l. (nonce + j) ∷ l)
          (get_next_nonces-Front (reserve redis db (nonce + j)) nonce (j + 1) k (omega arith)
              (reserve-Front db nonce j front)
            ∙ ap (λ n. count_up n k) (omega arith)))

  -- On a server that holds none of the fifty keys, up to fifty calls at one nonce of the chain
  -- return the consecutive numbers from that nonce on, so no two of them are equal.
  pub get_next_nonces_consecutive :
      (db : Db) (nonce k : ℕ)
      → k ≤ 50
      → ((m : ℕ) → m < 50 → is_present (view db (key_of (nonce + m))) ≡ false)
      → (get_next_nonces redis db (replicate k nonce)).0 ≡ count_up nonce k
  get_next_nonces_consecutive db nonce k h free =
      let e : nonce ≡ nonce + 0 = omega arith in
      get_next_nonces-Front db nonce 0 k (omega arith)
        (record { taken = λ m lt. absurd (omega arith); free = λ m low lt. free m lt })
      ∙ ap (λ n. count_up n k) (sym e)
