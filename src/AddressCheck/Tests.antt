-- ===== src/AddressCheck/Tests.antt =====
-- A search of the first two numbers of a concrete wallet for a script that it does not have, and a URI.
use thunderden.Base.{refl, leb→le, true, [], ◌∷◌, ok}
use thunderden.AddressCheck.{find_address, pk_hash, read_address, check_query, check_item}
use thunderden.AddressCheck.Uri.{read_address_uri}
use thunderden.Base.{Bytes, ◌++◌, ◌≡◌, codes, some, length}
use thunderden.AddressCheck.Search.{IsSearch, find_address_outcome}
use thunderden.Policy.Tests.{core, multisig}

find_address_outcome_example :
    IsSearch core multisig
      (7 ∷ [])
      0
      2
      (find_address core multisig (7 ∷ []) (Unit {0}) (some (λ s i. ok (true, s))) tt 0 2)
find_address_outcome_example =
    find_address_outcome core multisig (7 ∷ []) (Unit {0}) (λ s i. ok (true, s)) tt 0 2
      (leb→le 0 2 refl) (leb→le 2 0x8000_0000 refl) (leb→le 2 1000 refl)

abbrev address : Bytes
address = codes "bc1qxyz"

abbrev query : Bytes
query = codes "amount=1"

read_address_uri_example :
    (read_address (λ t. some (pk_hash t)) (codes "bitcoin:" ++ address)
      ≡ read_address (λ t. some (pk_hash t)) address)
    × (read_address (λ t. some (pk_hash t)) (codes "bitcoin:" ++ (address ++ (b'?' ∷ query)))
        ≡ read_address (λ t. some (pk_hash t)) address)
unfolding check_query check_item
read_address_uri_example =
    read_address_uri (λ t. some (pk_hash t)) address query refl refl refl refl
      (leb→le (length (address ++ (b'?' ∷ query))) 504 refl) refl
