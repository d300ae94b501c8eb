-- ===== src/Ovm/Databases/Truths.antt =====
-- What the decisions over the databases of packages/ovm/src/app/db say of the messages that came
-- and of the preimages that there are.
use pigi.Prelude.{
  ℕ, ◌≡◌, refl, sym, ap, ◌∙◌, subst, Bool, true, false, Option, none, some, List, [], ◌∷◌, map,
  ◌==◌, arith, Bool-cases, inl, inr, All, Any,
}
use pigi.Ovm.Types.{ok-injective, ok, Value, object, QuantifierResult, Decision}
use pigi.Ovm.Deciders.{Environment}
use pigi.Ovm.Semantics.{Meaning}
use pigi.Ovm.Databases.{
  HashAlgorithm, SignedMessage, Crypto, SignedByDb, HashPreimageDb, get_record, no_signatures,
  get_message_signature, StoredProperty, hash_preimage_exists, signed_by,
  SignedByQuantifierParameters, StoredValue, signed_message, decide_hash_preimage, decide_signed_by,
  in_channel, in_channel_only, get_all_signed, get_all_signed_by, stored_environment, get_preimage,
}
use pigi.Ovm.Databases.Contents.{
  receive, receive-IsSound, no_signatures-IsSound, entries_found, last_signed, signature_of,
  get_record-receive, get_message_signature-receive,
}
use pigi.Ovm.Databases.Arrivals.{Came, last_signed-some, last_signed-none, is_signature_there}
use pigi.Ovm.Databases.Preimages.{HasPreimages}

module _ {M G : Type 0} (crypto : Crypto M G) (my_address : ℕ) (algorithm : HashAlgorithm)
    (are_equal : Value (StoredValue M G) → Value (StoredValue M G) → Bool)
    (messages : List (M × Option G)) (preimages : HashPreimageDb M) where
  abbrev signatures : SignedByDb M G
  signatures = receive crypto messages no_signatures

  abbrev pub env : Environment (StoredProperty M) SignedByQuantifierParameters (StoredValue M G)
  env = stored_environment crypto are_equal algorithm my_address signatures preimages

  -- A message counts as signed by a key when a message with its hash came with a signature of the key,
  -- and as not signed by it when the key is ours and none came.
  abbrev pub Holds : Bool → StoredProperty M → Type 0
  Holds true (hash_preimage_exists hash) = (p : M) × (crypto.hash_function_for algorithm p ≡ hash)
  Holds false (hash_preimage_exists hash) = ⊥
  Holds true (signed_by key m) = Came crypto (crypto.md5_hash m) key messages
  Holds false (signed_by key m) =
      (key ≡ my_address) × ¬ Came crypto (crypto.md5_hash m) key messages

  -- The messages in the channel that came with a signature of the key, of each hash the last one.
  abbrev pub InDomain : SignedByQuantifierParameters → Value (StoredValue M G) → Type 0
  InDomain q v =
      (r : SignedMessage M G) × (v ≡ object (signed_message r))
      × (last_signed crypto (crypto.md5_hash r.serialized_message) q.address none messages ≡ some r)
      × (in_channel crypto q.channel_id r.serialized_message ≡ true)

  stored_lem :
      (hash key : ℕ) → get_record hash (signatures key) ≡ last_signed crypto hash key none messages
  unfolding get_record
  stored_lem hash key = get_record-receive crypto hash key messages no_signatures

  entries_last :
      (key : ℕ) (xs : List (ℕ × SignedMessage M G))
      → All (λ x. crypto.md5_hash x.1.serialized_message ≡ x.0) xs
      → All (λ x. get_record x.0 (signatures key) ≡ some x.1) xs
      → All
          (λ x.
            last_signed crypto (crypto.md5_hash x.1.serialized_message) key none messages
            ≡ some x.1)
          xs
  entries_last key [] h f = tt
  entries_last key (x ∷ xs) h f = (
    sym (stored_lem (crypto.md5_hash x.1.serialized_message) key)
        ∙ ap (λ k. get_record k (signatures key)) h.0
        ∙ f.0,
    entries_last key xs h.1 f.1,
  )

  module _ (hashed : HasPreimages crypto preimages) where
    decide_signed_by-Holds :
        (key : ℕ) (m : M)
        (d : Decision (StoredProperty M) SignedByQuantifierParameters (StoredValue M G))
        → decide_signed_by crypto my_address signatures key m ≡ ok d
        → Holds d.outcome (signed_by key m)
    unfolding decide_signed_by
    decide_signed_by-Holds key m d e =
        at (last_signed crypto (crypto.md5_hash m) key none messages) refl
          (get_message_signature-receive crypto m key messages)
      where
        at :
            (o : Option (SignedMessage M G))
            → last_signed crypto (crypto.md5_hash m) key none messages ≡ o
            → get_message_signature crypto m key signatures
              ≡ signature_of crypto (last_signed crypto (crypto.md5_hash m) key none messages)
            → Holds d.outcome (signed_by key m)
        at none q g = elim (Bool-cases (key == my_address)) [
          | inr other ↦ absurd (ground (arith, g ∙ ap (signature_of crypto) q, other, e))
          | inl mine ↦
              let outcome : d.outcome ≡ false =
                ground (arith, g ∙ ap (signature_of crypto) q, mine, e) in
              subst (λ b. Holds b (signed_by key m)) (sym outcome)
                (ground (arith, mine), last_signed-none crypto (crypto.md5_hash m) key messages q)
        ]
        at (some r) q g = elim (last_signed-some crypto (crypto.md5_hash m) key none r messages q) [
          | inl never ↦ absurd (ground (arith, never))
          | inr (h, s, a) ↦
              let there : crypto.is_empty_signature r.signature ≡ false =
                is_signature_there crypto key r s in
              let outcome : d.outcome ≡ true =
                ground (arith, g ∙ ap (signature_of crypto) q, there, e) in
              subst (λ b. Holds b (signed_by key m)) (sym outcome)
                (r.serialized_message, r.signature, h, s, a)
        ]

    decide_hash_preimage-Holds :
        (hash : ℕ) (d : Decision (StoredProperty M) SignedByQuantifierParameters (StoredValue M G))
        → decide_hash_preimage crypto algorithm preimages hash ≡ ok d
        → Holds d.outcome (hash_preimage_exists hash)
    unfolding decide_hash_preimage
    decide_hash_preimage-Holds hash d e = at (get_preimage crypto hash algorithm preimages) refl
      where
        at :
            (o : Option M)
            → get_preimage crypto hash algorithm preimages ≡ o
            → Holds d.outcome (hash_preimage_exists hash)
        at none q = absurd (ground (arith, q, e))
        at (some p) q =
            let outcome : d.outcome ≡ true = ground (arith, q, e) in
            subst (λ b. Holds b (hash_preimage_exists hash)) (sym outcome)
              (p, hashed algorithm hash p q)

    channel_lem :
        (c : Option ℕ) (key : ℕ) (xs : List (ℕ × SignedMessage M G))
        → All
            (λ x.
              last_signed crypto (crypto.md5_hash x.1.serialized_message) key none messages
              ≡ some x.1)
            xs
        → All
            (InDomain (record { address = key; channel_id = c }))
            (map (λ r. object (signed_message r)) (in_channel_only crypto c (map (λ x. x.1) xs)))
    unfolding in_channel_only
    channel_lem c key [] h = tt
    channel_lem c key (x ∷ xs) h = elim (Bool-cases (in_channel crypto c x.1.serialized_message)) [
      | inr e ↦ rw e (channel_lem c key xs h.1)
      | inl e ↦ rw e ((x.1, refl, h.0, e), channel_lem c key xs h.1)
    ]

    channel_whole :
        (c : Option ℕ) (k : ℕ) (r : SignedMessage M G) (v : Value (StoredValue M G))
        (xs : List (ℕ × SignedMessage M G))
        → v ≡ object (signed_message r)
        → in_channel crypto c r.serialized_message ≡ true
        → get_record k xs ≡ some r
        → Any
            (λ w. w ≡ v)
            (map (λ r. object (signed_message r)) (in_channel_only crypto c (map (λ x. x.1) xs)))
    unfolding in_channel_only get_record
    channel_whole c k r v [] e i q = absurd (ground (arith, q))
    channel_whole c k r v (x ∷ xs) e i q = elim (Bool-cases (x.0 == k)) [
      | inl here ↦
          let same : x.1 ≡ r = ground (arith, here, q) in
          let kept : in_channel crypto c x.1.serialized_message ≡ true =
            ap (λ s. in_channel crypto c s.serialized_message) same ∙ i in
          rw kept (inl (ap (λ s. object (signed_message s)) same ∙ sym e))
      | inr later ↦
          let rest = channel_whole c k r v xs e i (ground (arith, later, q)) in
          elim (Bool-cases (in_channel crypto c x.1.serialized_message)) [
            | inl kept ↦ rw kept (inr rest)
            | inr out ↦ rw out rest
          ]
    ]

    pub decide_external-Holds :
        (x : StoredProperty M) (no_cache : Bool)
        (d : Decision (StoredProperty M) SignedByQuantifierParameters (StoredValue M G))
        → env.decide_external x no_cache ≡ ok d
        → Holds d.outcome x
    decide_external-Holds (hash_preimage_exists hash) no_cache d e =
        decide_hash_preimage-Holds hash d e
    decide_external-Holds (signed_by key m) no_cache d e = decide_signed_by-Holds key m d e

    pub quantify-InDomain :
        (q : SignedByQuantifierParameters) (r : QuantifierResult (StoredValue M G))
        → env.quantify_external q ≡ ok r
        → All (InDomain q) r.results
    unfolding get_all_signed get_all_signed_by
    quantify-InDomain q r e =
        let given : r ≡ _ = sym (ok-injective e) in
        let (hashes, sorted) =
          receive-IsSound crypto messages no_signatures (no_signatures-IsSound crypto) q.address in
        subst (λ (x : QuantifierResult (StoredValue M G)). All (InDomain q) x.results) (sym given)
          (channel_lem q.channel_id q.address (signatures q.address) (
            entries_last q.address (signatures q.address) hashes
              (entries_found (signatures q.address) sorted)))

    pub quantify_whole :
        (q : SignedByQuantifierParameters) (r : QuantifierResult (StoredValue M G))
        → env.quantify_external q ≡ ok r
        → r.all_results_quantified ≡ true
        → (v : Value (StoredValue M G)) → InDomain q v
        → Any (λ w. w ≡ v) r.results
    unfolding get_all_signed get_all_signed_by
    quantify_whole q r e all v (s, same, last, i) =
        let given : r ≡ _ = sym (ok-injective e) in
        subst (λ (x : QuantifierResult (StoredValue M G)). Any (λ w. w ≡ v) x.results) (sym given)
          (channel_whole q.channel_id (crypto.md5_hash s.serialized_message) s v
            (signatures q.address) same i
            (stored_lem (crypto.md5_hash s.serialized_message) q.address ∙ last))

    -- What the stored properties mean, for the databases
    abbrev pub stored_meaning : Meaning env
    stored_meaning = record {
      Holds = Holds;
      InDomain = InDomain;
      decide_right = decide_external-Holds;
      quantify_right = quantify-InDomain;
      quantify_whole = quantify_whole;
    }
