-- ===== src/QrCommands/Answers.antt =====
-- src/qr_commands.cpp: what each command asks for, shows the user and answers.
use thunderden.Base.{
  ℕ, ◌<◌, ◌≡◌, ◌⊎◌, if◌then◌else◌, Bool, true, false, Option, some, is_empty, Result, ok, ◌>>=◌,
  ◌>>◌, List, length, Bytes, [], ◌∷◌, ◌++◌, codes,
}
use thunderden.Cbor
use thunderden.Cbor.Writer
use thunderden.Cbor.Writer.{CborLite, CborWriter}
use thunderden.Core.{Core}
use thunderden.Keys.{Keys, public_at, encode_public, root_fingerprint, registration_tag}
use thunderden.Policy.{Policy, Position}
use thunderden.Policy.Owner.{id, authorized}
use thunderden.Policy.Positions.{script}
use thunderden.QrCommands.{
  Lines, Signed, QrApproval, Signer, empty, read_policy, read_path, max_psbt_bytes,
}
use mathlib.Core.List.{foldl}

module _ (core : Core) (lib : CborLite) (signer : Signer core) where
  -- What the bytes of each command ask for: its fields one after the other, and nothing behind them.
  abbrev pub path_request : Bytes → Result (List ℕ)
  path_request s = do
    (u, s1) ← Cbor.tuple 2 s
    (count, s2) ← Cbor.array 32 s1
    (path, s3) ← read_path core lib signer count s2
    (display, s4) ← Cbor.u_int 1 s3
    Cbor.end s4
    ok path

  abbrev pub policy_request : Bytes → Result (Policy core)
  policy_request s = do
    (u, s1) ← Cbor.tuple 1 s
    (policy, s2) ← read_policy core lib signer s1
    Cbor.end s2
    ok policy

  abbrev pub proved_policy : Bytes → Result (Policy core × Bytes × Bytes)
  proved_policy s = do
    (policy, s1) ← read_policy core lib signer s
    (proof, s2) ← Cbor.bytes 32 s1
    ok (policy, proof, s2)

  abbrev pub address_request : Bytes → Result (Policy core × Bytes × Position)
  address_request s = do
    (u, s0) ← Cbor.tuple 4 s
    (policy, proof, s1) ← proved_policy s0
    (branch, s2) ← Cbor.u_int 1 s1
    (index, s3) ← Cbor.u_int 0x7fff_ffff s2
    Cbor.end s3
    ok (policy, proof, record { branch = branch; index = index })

  abbrev pub signing_request : Bytes → Result (Policy core × Bytes × Bytes)
  signing_request s = do
    (u, s0) ← Cbor.tuple 3 s
    (policy, proof, s1) ← proved_policy s0
    (psbt, s2) ← Cbor.bytes max_psbt_bytes s1
    Cbor.end s2
    ok (policy, proof, psbt)

  -- A yes to exactly these lines, and to these lines with these details.
  abbrev pub SaidYes : Option (Lines → Bool) → Lines → Type 0
  SaidYes callback lines = (f : Lines → Bool) × (callback ≡ some f) × (f lines ≡ true)

  abbrev pub SaidYesTo : Option (Lines → Lines → Bool) → Lines → Lines → Type 0
  SaidYesTo callback lines details =
      (f : Lines → Lines → Bool) × (callback ≡ some f) × (f lines details ≡ true)

  -- The lines that name the key that leaves the device.
  abbrev pub key_lines : Lines → Bytes → Lines
  key_lines lines text =
      (codes "Review the public key you're being asked to share." ∷ [] ∷ lines)
      ++ ([] ∷ codes "Extended public key:" ∷ text ∷ [])

  abbrev pub address_lines : Lines → Lines
  address_lines lines =
      codes "Compare this full address with the one shown in your wallet app." ∷ [] ∷ lines

  -- The lines that identify the wallet that is registered: its ID, and its descriptor with the checksum.
  abbrev pub registration_lines : Policy core → Lines
  registration_lines policy =
      (codes "Wallet ID: " ++ core.hex_str (id core policy))
      ∷ []
      ∷ codes "Full public descriptor:"
      ∷ (policy.public_text ++ (codes "#" ++ core.descriptor_checksum policy.public_text))
      ∷ []

  -- The bodies: an array with the path's steps and the key's text, with the wallet's ID and tag, with the
  -- address, or with the transaction, the number of new signatures and whether it is complete.
  abbrev pub path_body : List ℕ → Bytes → Bytes
  path_body path text =
      let w1 = Writer.array lib (empty core lib signer) 2 in
      let w2 = Writer.array lib w1 (length path) in
      (Writer.text lib (foldl (Writer.u_int lib) w2 path) text).written

  abbrev pub signing_body : Signed → Bytes
  signing_body r =
      let w1 = Writer.array lib (empty core lib signer) 3 in
      let w2 = Writer.bytes lib w1 r.psbt in
      let w3 = Writer.u_int lib w2 r.added_signatures in
      (Writer.u_int lib w3 (if r.complete then 1 else 0)).written

  abbrev pub registration_body : Bytes → Bytes → Bytes
  registration_body wallet tag =
      (Writer.bytes lib (Writer.bytes lib (Writer.array lib (empty core lib signer) 2) wallet)
        tag).written

  abbrev pub address_body : Bytes → Bytes
  address_body address =
      (Writer.text lib (Writer.array lib (empty core lib signer) 1) address).written

  -- The head of a reply: an array of the format, the request, the network, the seed's fingerprint, the
  -- version, the operation, the status and one item more.
  abbrev pub reply_fields : Keys core → Bytes → ℕ → ℕ → CborWriter
  reply_fields keys request operation status =
      let w1 = Writer.array lib (empty core lib signer) 8 in
      let w2 = Writer.u_int lib w1 3 in
      let w3 = Writer.bytes lib w2 request in
      let w4 = Writer.text lib w3 signer.chain in
      let w5 = Writer.bytes lib w4 (root_fingerprint core keys) in
      let w6 = Writer.text lib w5 (codes "0.0.1") in
      let w7 = Writer.u_int lib w6 operation in Writer.u_int lib w7 status

  module _ (keys : Keys core) (approve : QrApproval signer.Review) where
    -- A policy that the session authorizes with the proof that came with it.
    abbrev pub IsAuthorized : Policy core → Bytes → Type 0
    IsAuthorized policy proof = authorized core policy keys proof ≡ ok true

    -- The user saw the key at the requested path, as text, and the body states that path and that text.
    abbrev pub IsExport : Bytes → Bytes → Type 0
    IsExport s body =
        (path : List ℕ) × (key : core.ExtPubKey) × (lines : Lines) × (path_request s ≡ ok path)
        × (public_at core keys path ≡ ok key)
        × (signer.public_key_review keys path ≡ ok lines)
        × SaidYes approve.export_key (key_lines lines (encode_public core key signer.mainnet))
        × (body ≡ path_body path (encode_public core key signer.mainnet))

    -- The user saw the requested policy, which is named, and the body states its ID and tag.
    abbrev pub IsRegistration : Bytes → Bytes → Type 0
    IsRegistration s body =
        (policy : Policy core) × (lines : Lines) × (policy_request s ≡ ok policy)
        × (is_empty policy.name ≡ false)
        × (signer.policy_review policy keys ≡ ok lines)
        × SaidYesTo approve.register_wallet lines (registration_lines policy)
        × (body ≡ registration_body (id core policy) (registration_tag core keys (id core policy)))

    -- The user saw the address that the authorized policy has at the requested position, and the body
    -- states that address.
    abbrev pub IsAddressBody : Bytes → Bytes → Type 0
    IsAddressBody s body =
        (policy : Policy core) × (proof : Bytes) × (position : Position) × (output : core.Script)
        × (address : Bytes) × (lines : Lines) × (details : Lines) × (address_request s
            ≡ ok (policy, proof, position))
        × IsAuthorized policy proof
        × (script core policy position.branch position.index ≡ ok output)
        × (signer.address_of output ≡ some address)
        × (signer.address_review policy keys position address ≡ ok lines)
        × (signer.policy_details policy keys ≡ ok details)
        × SaidYesTo approve.address (address_lines lines) details
        × (body ≡ address_body address)

    -- Signing the requested transaction under the authorized policy gave a result, and the body is it.
    abbrev pub IsSigningBody : Bytes → Bytes → Type 0
    IsSigningBody s body =
        (policy : Policy core) × (proof : Bytes) × (psbt : Bytes) × (result : Signed)
        × (signing_request s ≡ ok (policy, proof, psbt))
        × IsAuthorized policy proof
        × (signer.sign policy keys proof psbt approve.transaction ≡ ok (some result))
        × (body ≡ signing_body result)

    -- What stands behind the body that answers the bytes of a command, by the number of the command.
    abbrev pub IsGranted : ℕ → Bytes → Bytes → Type 0
    IsGranted operation s body =
        ((operation ≡ 0) × (body ≡ (Writer.array lib (empty core lib signer) 0).written))
        ⊎ ((operation ≡ 1) × IsExport s body)
        ⊎ ((operation ≡ 2) × IsRegistration s body)
        ⊎ ((operation ≡ 3) × IsAddressBody s body)
        ⊎ ((3 < operation) × IsSigningBody s body)
