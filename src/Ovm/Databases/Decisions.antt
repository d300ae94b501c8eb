-- ===== src/Ovm/Databases/Decisions.antt =====
-- Decisions of packages/ovm over databases that are filled by the messages that come
use pigi.Prelude.{ℕ, ◌≡◌, Bool, Option, List}
use pigi.Ovm.Types.{ok, Value, Decision, Property}
use pigi.Ovm.Deciders.{decide}
use pigi.Ovm.Semantics.{Truth}
use pigi.Ovm.Soundness.{decide_sound}
use pigi.Ovm.Databases.{
  HashAlgorithm, Crypto, no_preimages, StoredProperty, SignedByQuantifierParameters, StoredValue,
}
use pigi.Ovm.Databases.Preimages.{
  no_preimages-HasPreimages, receive_preimages, receive_preimages-HasPreimages,
}
use pigi.Ovm.Databases.Truths.{env, stored_meaning}

module _ {M G : Type 0} (crypto : Crypto M G) (my_address : ℕ) (algorithm : HashAlgorithm)
    (are_equal : Value (StoredValue M G) → Value (StoredValue M G) → Bool)
    (messages : List (M × Option G)) (texts : List M) where
  -- For every nesting of the deciders, a decision over the databases that messages have filled from
  -- empty ones is the truth, where a message counts as signed by a key when a message with the same MD5
  -- hash came with a signature, not an empty one, that the verifier ascribes to the key, and as not signed
  -- by it only when the key is our own and no such message came; where a quantifier ranges over the
  -- messages in the channel that came with a signature of its key, of each hash the last one; and where
  -- a preimage exists when some text has the hash, and is never decided not to exist.
  pub decide_stored_sound :
      (p : Property (StoredProperty M) SignedByQuantifierParameters (StoredValue M G))
      (no_cache : Bool)
      (d : Decision (StoredProperty M) SignedByQuantifierParameters (StoredValue M G))
      → decide
          (env crypto my_address algorithm are_equal messages
            (receive_preimages crypto texts no_preimages))
          p
          no_cache
        ≡ ok d
      → Truth
          (stored_meaning crypto my_address algorithm are_equal messages
            (receive_preimages crypto texts no_preimages)
            (receive_preimages-HasPreimages crypto texts no_preimages
              (no_preimages-HasPreimages crypto)))
          d.outcome
          p
  decide_stored_sound p no_cache d e =
      decide_sound
        (stored_meaning crypto my_address algorithm are_equal messages
          (receive_preimages crypto texts no_preimages)
          (receive_preimages-HasPreimages crypto texts no_preimages
            (no_preimages-HasPreimages crypto)))
        p no_cache d e
