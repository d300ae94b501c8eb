-- ===== src/Ovm/Databases/Examples.antt =====
-- The database of party 9 in packages/ovm, with a message that it signed itself and one that it received
use pigi.Prelude.{
  ℕ, ◌+◌, ◌≡◌, refl, Bool, true, false, ◌&&◌, Option, none, some, List, [], ◌∷◌, ◌==◌,
  if◌then◌else◌,
}
use pigi.Ovm.Types.{Value, Property, and_decider, not_decider, external, nil, cons}
use pigi.Ovm.Deciders.{decide}
use pigi.Ovm.Loops.{
  promise_all, handle_cannot_decide_error, and_result, and_loop, get_not_decision, get_decision,
}
use pigi.Ovm.Semantics.{Truth}
use pigi.Ovm.Databases.{
  md5, Crypto, get_record, no_signatures, no_preimages, get_message_signature, StoredProperty,
  signed_by, SignedByQuantifierParameters, StoredValue, decide_signed_by, handle_signed_message,
}
use pigi.Ovm.Databases.Contents.{receive, get_message_signature-receive}
use pigi.Ovm.Databases.Preimages.{
  receive_preimages, receive_preimages-HasPreimages, no_preimages-HasPreimages,
}
use pigi.Ovm.Databases.Truths.{stored_meaning}
use pigi.Ovm.Databases.Decisions.{decide_stored_sound}

-- Party 9 signs message 3 with 4. Other signatures are those of party 7, one more than the message.
abbrev verify : ℕ → ℕ → Option ℕ
verify m g = if m == 3 && g == 4 then some 9 else (if g == m + 1 then some 7 else none)

abbrev crypto : Crypto ℕ ℕ
crypto = record {
  verify_message = verify;
  md5_hash = λ m. m;
  hash_function_for = λ algorithm m. m + 100;
  is_empty_signature = λ g. g == 0;
  is_empty_text = λ m. false;
  channel_of = λ m. none;
  preimage_of = λ m. some m;
}

abbrev messages : List (ℕ × Option ℕ)
messages = (3, some 4) ∷ (5, some 6) ∷ (8, none) ∷ []

never_equal : Value (StoredValue ℕ ℕ) → Value (StoredValue ℕ ℕ) → Bool
never_equal v w = false

get_message_signature-receive_example :
    get_message_signature crypto 5 7 (receive crypto messages no_signatures) ≡ some 6
unfolding get_message_signature get_record
get_message_signature-receive_example = get_message_signature-receive crypto 5 7 messages

-- A signature of party 9 came for message 3, and none for message 5.
abbrev sample : Property (StoredProperty ℕ) SignedByQuantifierParameters (StoredValue ℕ ℕ)
sample =
    and_decider
      (cons (external (signed_by 9 3)) (cons (not_decider (external (signed_by 9 5))) nil))

decide_stored_sound_example :
    Truth
      (stored_meaning crypto 9 md5 never_equal messages
        (receive_preimages crypto (2 ∷ []) no_preimages)
        (receive_preimages-HasPreimages crypto
          (2 ∷ [])
          no_preimages
          (no_preimages-HasPreimages crypto)))
      true
      sample
unfolding decide decide_signed_by handle_signed_message promise_all handle_cannot_decide_error
    and_result and_loop get_not_decision get_decision
decide_stored_sound_example =
    decide_stored_sound crypto 9 md5 never_equal messages (2 ∷ []) sample false _ refl
