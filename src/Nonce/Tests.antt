-- ===== src/Nonce/Tests.antt =====
-- Nonces picked on a server that is a plain function.
use content_publishing_servi.Common.{◌≡◌, ◌≢◌, ◌<◌, [], ◌∷◌, refl, arith, show}
use content_publishing_servi.Services.Memory.{memory, empty_store}
use content_publishing_servi.Nonce.{
  get_next_nonce, get_next_nonces, get_next_possible_keys, get_nonce_key,
}
use content_publishing_servi.Nonce.Unique.{
  replicate, count_up, get_next_nonce_fresh, get_next_nonces_consecutive,
}

two_calls : (get_next_nonces memory empty_store (7 ∷ 8 ∷ 7 ∷ [])).0 ≡ 7 ∷ 8 ∷ 9 ∷ []
unfolding get_next_nonces get_next_nonce get_next_possible_keys get_nonce_key show
two_calls = refl

first_found : (get_next_nonce memory empty_store 7).0 < 57
unfolding get_next_nonce get_next_possible_keys show
first_found = omega arith

get_next_nonce_fresh_example :
    (get_next_nonce memory (get_next_nonce memory empty_store 7).1 7).0
    ≢ (get_next_nonce memory empty_store 7).0
get_next_nonce_fresh_example = get_next_nonce_fresh memory empty_store 7 7 (omega arith) first_found

get_next_nonces_consecutive_example :
    (get_next_nonces memory empty_store (replicate 3 7)).0 ≡ count_up 7 3
get_next_nonces_consecutive_example =
    get_next_nonces_consecutive memory empty_store 7 3 (omega arith) (λ m h. refl)
