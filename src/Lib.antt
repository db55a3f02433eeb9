-- ===== src/Lib.antt =====
-- Thunder Den: an offline Bitcoin signer that talks through QR codes.
--
-- The program reads QR frames with a camera, joins them to a message (src/transport.cpp), parses the
-- message with bounded CBOR readers (src/cbor.h), and acts on it with the keys of a seed session
-- (src/keys.cpp) under a wallet policy (src/policy.cpp). Replies are shown as QR frames again.
--
--   Base       shared helpers: Boolean tests on numbers, lists, results of code that may throw, bytes
--   Cbor       src/cbor.h: CborReader in Cbor, CborWriter in Cbor/Writer, the canonical encoding in
--              Cbor/Encoding, what the reader accepts in Cbor/Canonical
--   Decimal    std::to_string and std::from_chars
--   Transport  src/transport.h and src/transport.cpp: CborBytes and UnwrapBytes; Transport/Receiver is
--              URReceiver, Transport/Sender is FragmentSize and URSender
--   Core       what the program calls of Bitcoin Core, as a record of operations
--   Keys       src/keys.cpp: derivation paths, public keys and registration tags
--   Policy     src/policy.cpp: Policy/KeyText reads one key, Policy/Template is the loop over the
--              template, Policy/Build the constructor, Policy/Owner ownership and authorization,
--              Policy/Positions addresses, Policy/Standard the default and multisig policies
--   AddressCheck  src/address_check.cpp: reading an address QR and the search for its position
--   Transaction  src/transaction.h and src/transaction.cpp: Transaction/Library is what they call of Bitcoin
--              Core, Transaction/Locate finds positions, Transaction/Read is ReadPSBT, Transaction/Review
--              the constructor of ReviewedTransaction, Transaction/Sign its method Sign, with the rounds of
--              the signer and what they count as a relation in Transaction/Sign/Steps, and what a positive
--              count means in Transaction/Sign/Added; Transaction/Pending, Transaction/Discover
--              and Transaction/Choices are PendingInputCount, DiscoverMultisig and FindSigningWallets
--   WalletQr   src/wallet_qr.cpp: WalletQr/Account is ReadAccount, WalletQr/Setup ReadMultisigText,
--              WalletQr/Import ImportMultisig and IsMultisigSetup, WalletQr/Export the exported keys
--   QrCommands  src/qr_commands.cpp: the commands of a wallet app, their answers and statuses, with
--              ApproveWallet of src/application.cpp; QrCommands/Answers says what each command asks for, shows
--              and answers; the texts of src/review.cpp are operations of
--              the record Signer, whose signing is filled by Transaction in QrCommands/Signing
--   Assessment  src/assessment_progress.cpp: the records of a worker that checks a camera, from bytes in reads
--              of any size to the progress of the checks
--   Entropy    src/entropy.cpp: the contributions to a new seed and the bytes that are hashed to mix them
--
-- Code that throws `std::invalid_argument` returns a `Result` whose error is the message. State is passed
-- along: `URReceiver::Receive` is `receive`, from a receiver and a frame to the next receiver and what the
-- call returned or threw. Its two halves are `validate`, all that happens before the members change, and
-- `perform`. Bytes and characters are natural numbers; a 64-bit shift keeps its wrap-around.
--
-- Fuel: the loop over a policy's text has the text's length, and every round takes a character. The loop
-- over the steps of a key's origin has 33 rounds, since the code refuses a 33rd step. `Merkle` has the
-- number of keys, and both of its halves are shorter. The search for an address has one round for each
-- index left. `Feed` has the number of bytes, and every round takes one.
--
-- Libraries are parameters: CborLite (with the canonical encoding that its documentation promises), the
-- Bytewords and fountain codes, SHA-256, Base58Check, and Bitcoin Core's keys and descriptors. Wiping of
-- secrets has no counterpart, since values here have no storage. Not modelled are the terminal, the
-- camera, the entropy processes, isolation and program start, which are input and output, and so far
-- mnemonics and their QR forms, the dialogues of a session and of the application, and the texts that are
-- reviewed.
pub mod Base
pub mod Cbor
pub mod Decimal
pub mod Transport
pub mod Core
pub mod Keys
pub mod Policy
pub mod AddressCheck
pub mod Transaction
pub mod WalletQr
pub mod QrCommands
pub mod Entropy
pub mod Assessment
