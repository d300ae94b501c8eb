-- ===== src/Ovm/Databases.antt =====
-- The databases of packages/ovm/src/app/db, and the deciders and the quantifier that read them. Messages
-- have the type `M` and signatures the type `G`; addresses, hashes and channels are numbers. A bucket of
-- the database holds its entries in the order of their keys. The key-value store, the signature verifier,
-- the hash functions and the parsing of messages are parameters.
pub mod Contents
pub mod Preimages
pub mod Arrivals
pub mod Truths
pub mod Decisions
mod Examples
use pigi.Prelude.{
  ℕ, Bool, true, false, not, ◌&&◌, Option, none, some, List, [], ◌∷◌, map, ltb, ◌==◌, if◌then◌else◌,
}
use pigi.Ovm.Types.{
  cannot_decide, Result, ok, err, Value, object, QuantifierResult, external, witness, Decision,
}
use pigi.Ovm.Loops.{get_justification}
use pigi.Ovm.Deciders.{Environment}

pub data HashAlgorithm : Type 0 where
  md5 : HashAlgorithm
  keccak256 : HashAlgorithm

abbrev pub same_algorithm : HashAlgorithm → HashAlgorithm → Bool
same_algorithm md5 md5 = true
same_algorithm keccak256 keccak256 = true
same_algorithm _ _ = false

pub record SignedMessage (M G : Type 0) : Type 0 where
  pub signature : G
  pub serialized_message : M

-- `verify_message` recovers the signer, and `preimage_of` is what a message has as its preimage; `none`
-- where these throw, or there is nothing.
pub record Crypto (M G : Type 0) : Type 0 where
  pub verify_message : M → G → Option ℕ
  pub md5_hash : M → ℕ
  pub hash_function_for : HashAlgorithm → M → ℕ
  pub is_empty_signature : G → Bool
  pub is_empty_text : M → Bool
  pub channel_of : M → Option ℕ
  pub preimage_of : M → Option M

-- A bucket for each public key
abbrev pub SignedByDb : Type 0 → Type 0 → Type 0
SignedByDb M G = ℕ → List (ℕ × SignedMessage M G)

-- A bucket for each algorithm
abbrev pub HashPreimageDb : Type 0 → Type 0
HashPreimageDb M = HashAlgorithm → ℕ → Option M

-- What the deciders of this file decide
pub data StoredProperty (M : Type 0) : Type 0 where
  hash_preimage_exists : ℕ → StoredProperty M
  signed_by : ℕ → M → StoredProperty M

pub record SignedByQuantifierParameters : Type 0 where
  pub address : ℕ
  pub channel_id : Option ℕ

-- What the quantifier gives, and what the deciders give as a witness
pub data StoredValue (M G : Type 0) : Type 0 where
  signed_message : SignedMessage M G → StoredValue M G
  preimage_witness : M → StoredValue M G
  signature_witness : Option G → StoredValue M G

abbrev pub no_preimages : {M : Type 0} → HashPreimageDb M
no_preimages algorithm hash = none

module _ {M G : Type 0} where
  -- `put` and `get` of a bucket
  unfoldable pub put_record :
      ℕ → SignedMessage M G → List (ℕ × SignedMessage M G) → List (ℕ × SignedMessage M G)
  put_record k r [] = (k, r) ∷ []
  put_record k r (x ∷ xs) =
      let rest = put_record k r xs in
      if ltb x.0 k then x ∷ rest else (if x.0 == k then (k, r) ∷ xs else (k, r) ∷ x ∷ xs)

  unfoldable pub get_record : ℕ → List (ℕ × SignedMessage M G) → Option (SignedMessage M G)
  get_record k [] = none
  get_record k (x ∷ xs) = let rest = get_record k xs in if x.0 == k then some x.1 else rest

  abbrev pub no_signatures : SignedByDb M G
  no_signatures key = []

  module _ (crypto : Crypto M G) where
    -- `SignedByDB.storeSignedMessage`
    unfoldable pub store_signed_message : M → G → SignedByDb M G → Option (SignedByDb M G)
    unfolding put_record
    store_signed_message m g db = elim (crypto.verify_message m g) [
      | none ↦ none
      | some signer ↦ some (λ key.
          if key == signer
          then put_record (crypto.md5_hash m) (record { signature = g; serialized_message = m })
              (db key)
          else db key)
    ]

    -- `SignedByDB.handleMessage`
    unfoldable pub handle_signed_message : M → Option G → SignedByDb M G → SignedByDb M G
    unfolding store_signed_message
    handle_signed_message m none db = db
    handle_signed_message m (some g) db =
        if crypto.is_empty_signature g
        then db
        else elim (store_signed_message m g db) [ none ↦ db | some db' ↦ db' ]

    -- `SignedByDB.getMessageSignature`
    unfoldable pub get_message_signature : M → ℕ → SignedByDb M G → Option G
    unfolding get_record
    get_message_signature m key db = elim (get_record (crypto.md5_hash m) (db key)) [
      | none ↦ none
      | some r ↦ some r.signature
    ]

    -- `SignedByDB.getAllSignedBy`
    unfoldable pub get_all_signed_by : ℕ → SignedByDb M G → List (SignedMessage M G)
    get_all_signed_by key db = map (λ x. x.1) (db key)

    -- `HashPreimageDB.storePreimage`
    unfoldable pub store_preimage : M → HashAlgorithm → HashPreimageDb M → HashPreimageDb M
    store_preimage p algorithm db = λ a hash.
        if same_algorithm a algorithm && crypto.hash_function_for algorithm p == hash
        then some p
        else db a hash

    -- `HashPreimageDB.handleMessage`
    unfoldable pub handle_preimage_message : M → HashPreimageDb M → HashPreimageDb M
    unfolding store_preimage
    handle_preimage_message m db = elim (crypto.preimage_of m) [
      | none ↦ db
      | some p ↦ store_preimage p keccak256 db
    ]

    -- `HashPreimageDB.getPreimage`
    abbrev pub get_preimage : ℕ → HashAlgorithm → HashPreimageDb M → Option M
    get_preimage hash algorithm db = db algorithm hash

    abbrev pub Answer : Type 0
    Answer = Result (Decision (StoredProperty M) SignedByQuantifierParameters (StoredValue M G))

    -- `HashPreimageExistenceDecider.decide`
    unfoldable pub decide_hash_preimage : HashAlgorithm → HashPreimageDb M → ℕ → Answer
    unfolding get_justification
    decide_hash_preimage algorithm db hash =
        let undecided = err (
          cannot_decide
            "No preimage is stored for the hash, so we cannot decide whether a preimage exists for the hash.") in
        elim (get_preimage hash algorithm db) [
          | none ↦ undecided
          | some p ↦
              if crypto.is_empty_text p
              then undecided
              else ok (record {
                outcome = true;
                justification =
                    get_justification (external (hash_preimage_exists hash))
                      (witness (preimage_witness p));
              })
        ]

    -- `!!signature`
    abbrev pub is_there : Option G → Bool
    is_there none = false
    is_there (some g) = not (crypto.is_empty_signature g)

    -- `SignedByDecider.decide`
    unfoldable pub decide_signed_by : ℕ → SignedByDb M G → ℕ → M → Answer
    unfolding get_message_signature get_justification
    decide_signed_by my_address db key m =
        let signature = get_message_signature m key db in
        if not (is_there signature) && not (key == my_address)
        then err (
            cannot_decide
              "We do not have a signature for this public key and message, but we do not know for certain that the message was not signed by the private key associated with the provided public key.")
        else ok (record {
          outcome = is_there signature;
          justification =
              get_justification (external (signed_by key m))
                (witness (signature_witness signature));
        })

    -- Whether a message is in the channel that is asked for, if any
    abbrev pub in_channel : Option ℕ → M → Bool
    in_channel none m = true
    in_channel (some c) m = elim (crypto.channel_of m) [ none ↦ false | some d ↦ c == d ]

    unfoldable pub in_channel_only : Option ℕ → List (SignedMessage M G) → List (SignedMessage M G)
    in_channel_only c [] = []
    in_channel_only c (r ∷ rs) =
        let rest = in_channel_only c rs in
        if in_channel c r.serialized_message then r ∷ rest else rest

    -- `SignedByQuantifier.getAllQuantified`
    unfoldable pub get_all_signed :
        ℕ
        → SignedByDb M G
        → SignedByQuantifierParameters
        → Result (QuantifierResult (StoredValue M G))
    unfolding get_all_signed_by in_channel_only
    get_all_signed my_address db q = ok (record {
      results =
          map (λ r. object (signed_message r))
            (in_channel_only q.channel_id (get_all_signed_by q.address db));
      all_results_quantified = q.address == my_address;
    })

    -- The deciders and the quantifier over two databases
    abbrev pub stored_environment :
        (Value (StoredValue M G) → Value (StoredValue M G) → Bool)
        → HashAlgorithm
        → ℕ
        → SignedByDb M G
        → HashPreimageDb M
        → Environment (StoredProperty M) SignedByQuantifierParameters (StoredValue M G)
    stored_environment are_equal algorithm my_address signed preimages = record {
      decide_external = λ x no_cache. elim x [
        | hash_preimage_exists hash ↦ decide_hash_preimage algorithm preimages hash
        | signed_by key m ↦ decide_signed_by my_address signed key m
      ];
      quantify_external = get_all_signed my_address signed;
      are_equal = are_equal;
    }
