-- ===== src/AddressCheck/Uri.antt =====
-- src/address_check.cpp, ReadAddress: payment URIs.
use thunderden.Base.{
  ℕ, ◌+◌, ◌≤◌, ◌≡◌, refl, sym, ◌∙◌, Bool, true, false, not, ◌&&◌, [], ◌∷◌, ◌++◌, map, Option, none,
  some, leb, le→leb, length, length-append, take, all, all-append, is_empty, ok, codes, text_eq,
  contains, to_lower, split_at, Bytes, arith, and-true,
}
use thunderden.AddressCheck.{Destination, address_text, check_query, is_address_char, read_address}
use thunderden.Transport.{max_address_qr}

split_at-none : (c : ℕ) (s : Bytes) → contains s c ≡ false → split_at c s ≡ none
split_at-none c [] h = refl
split_at-none c (x ∷ s) h = ground (arith, split_at-none c s)

split_at-append :
    (c : ℕ) (a q : Bytes) → contains a c ≡ false → split_at c (a ++ (c ∷ q)) ≡ some (a, q)
split_at-append c [] q h = ground arith
split_at-append c (x ∷ a) q h = ground (arith, split_at-append c a q)

abbrev pub is_uri : Bytes → Bool
is_uri text = text_eq (map to_lower (take 8 text)) (codes "bitcoin:")

-- Where both texts pass the first test and hold the same address, they are read alike.
read_alike :
    (decode : Bytes → Option Destination) (text other address : Bytes)
    → (not (is_empty text) && (leb (length text) max_address_qr && all is_address_char text)) ≡ true
    → (not (is_empty other) && (leb (length other) max_address_qr && all is_address_char other))
      ≡ true
    → address_text text ≡ ok address
    → address_text other ≡ ok address
    → read_address decode text ≡ read_address decode other
unfolding read_address
read_alike decode text other address h k e f = rw (h, k, e, f) refl

not_empty : (a : Bytes) → is_empty a ≡ false → (not (is_empty a)) ≡ true
not_empty [] h = cc
not_empty (x ∷ a) h = refl

-- Take an address with no question mark that does not itself start with the URI's scheme, and a query
-- that `ReadAddress` lets through, all of permitted characters, of at most 504 with the question mark.
-- Then `bitcoin:` in front of the address, with the query or without, is read as the address alone.
pub read_address_uri :
    (decode : Bytes → Option Destination) (a q : Bytes)
    → is_empty a ≡ false
    → is_uri a ≡ false
    → contains a b'?' ≡ false
    → all is_address_char (a ++ (b'?' ∷ q)) ≡ true
    → length (a ++ (b'?' ∷ q)) ≤ 504
    → check_query (length q) q ≡ ok tt
    → (read_address decode (codes "bitcoin:" ++ a) ≡ read_address decode a)
      × (read_address decode (codes "bitcoin:" ++ (a ++ (b'?' ∷ q))) ≡ read_address decode a)
unfolding address_text
read_address_uri decode a q filled plain no_query chars short query =
    let sizes : length (a ++ (b'?' ∷ q)) ≡ length a + length (b'?' ∷ q) =
      length-append a (b'?' ∷ q) in
    let visible : all is_address_char a ≡ true =
      (and-true _ _ (sym (all-append is_address_char a (b'?' ∷ q)) ∙ chars)).0 in
    let start = not_empty a filled in
    let whole : leb (length a) max_address_qr ≡ true = le→leb _ _ (omega arith) in
    let bare : leb (length (codes "bitcoin:" ++ a)) max_address_qr ≡ true =
      le→leb _ _ (omega arith) in
    let full : leb (length (codes "bitcoin:" ++ (a ++ (b'?' ∷ q)))) max_address_qr ≡ true =
      le→leb _ _ (omega arith) in
    (
      read_alike decode (codes "bitcoin:" ++ a) a a (rw (bare, visible) refl)
          (rw (start, whole, visible) refl) (rw (split_at-none b'?' a no_query) refl)
          (rw plain refl),
      read_alike decode (codes "bitcoin:" ++ (a ++ (b'?' ∷ q))) a a (rw (full, chars) refl)
          (rw (start, whole, visible) refl) (rw (split_at-append b'?' a q no_query, query) refl)
          (rw plain refl),
    )
