-- ===== src/Ovm/Databases/Contents.antt =====
-- What the databases of packages/ovm/src/app/db hold after the messages that came.
use pigi.Prelude.{
  ℕ, ◌<◌, ◌≤◌, ◌≡◌, refl, sym, ap, ◌∙◌, subst, Bool, true, false, not, ◌&&◌, Option, none, some,
  List, [], ◌∷◌, ltb, ◌==◌, if◌then◌else◌, arith, Bool-cases, Option-cases, inl, inr, All,
}
use pigi.Ovm.Databases.{
  SignedMessage, Crypto, SignedByDb, put_record, get_record, no_signatures, store_signed_message,
  handle_signed_message, get_message_signature,
}

module _ {M G : Type 0} where
  get_record-put_record :
      (j k : ℕ) (r : SignedMessage M G) (xs : List (ℕ × SignedMessage M G))
      → get_record j (put_record k r xs) ≡ (if k == j then some r else get_record j xs)
  unfolding get_record put_record
  get_record-put_record j k r [] = refl
  get_record-put_record j k r (x ∷ xs) = ground (arith, get_record-put_record j k r xs)

  put_record-All :
      (P : ℕ × SignedMessage M G → Type 0) (k : ℕ) (r : SignedMessage M G)
      (xs : List (ℕ × SignedMessage M G))
      → P (k, r)
      → All P xs
      → All P (put_record k r xs)
  unfolding put_record
  put_record-All P k r [] h a = (h, tt)
  put_record-All P k r (x ∷ xs) h a = elim (Bool-cases (ltb x.0 k)) [
    | inl e ↦ rw e (a.0, put_record-All P k r xs h a.1)
    | inr e ↦
        rw e
          (elim (Bool-cases (x.0 == k))
            as (λ _. All P (if x.0 == k then (k, r) ∷ xs else (k, r) ∷ x ∷ xs)) [
              | inl f ↦ rw f (h, a.1)
              | inr f ↦ rw f (h, a)
            ])
  ]

  -- The keys rise.
  abbrev pub IsSorted : List (ℕ × SignedMessage M G) → Type 0
  IsSorted [] = Unit
  IsSorted (x ∷ xs) = All (λ y. x.0 < y.0) xs × IsSorted xs

  put_record-IsSorted :
      (k : ℕ) (r : SignedMessage M G) (xs : List (ℕ × SignedMessage M G))
      → IsSorted xs
      → IsSorted (put_record k r xs)
  unfolding put_record
  put_record-IsSorted k r [] h = (tt, tt)
  put_record-IsSorted k r (x ∷ xs) h = elim (Bool-cases (ltb x.0 k)) [
    | inl e ↦ rw e (
      put_record-All (λ y. x.0 < y.0) k r xs (ground (arith, e)) h.0,
      put_record-IsSorted k r xs h.1,
    )
    | inr e ↦
        rw e
          (elim (Bool-cases (x.0 == k))
            as (λ _. IsSorted (if x.0 == k then (k, r) ∷ xs else (k, r) ∷ x ∷ xs)) [
              | inl f ↦ rw f (above k xs (ground (arith, f)) h.0, h.1)
              | inr f ↦ rw f ((ground (arith, e, f), above k xs (ground (arith, e)) h.0), h)
            ])
  ]
    where
      above :
          (j : ℕ) (ys : List (ℕ × SignedMessage M G))
          → j ≤ x.0
          → All (λ y. x.0 < y.0) ys
          → All (λ y. j < y.0) ys
      above j [] l m = tt
      above j (y ∷ ys) l m = (omega (arith, l, m.0), above j ys l m.1)

  -- Each entry is found under its key.
  pub entries_found :
      (xs : List (ℕ × SignedMessage M G)) → IsSorted xs → All (λ x. get_record x.0 xs ≡ some x.1) xs
  unfolding get_record
  entries_found [] h = tt
  entries_found (x ∷ xs) h = (ground arith, later xs h.0 (entries_found xs h.1))
    where
      later :
          (ys : List (ℕ × SignedMessage M G))
          → All (λ y. x.0 < y.0) ys
          → All (λ y. get_record y.0 xs ≡ some y.1) ys
          → All (λ y. get_record y.0 (x ∷ xs) ≡ some y.1) ys
      later [] l m = tt
      later (y ∷ ys) l m = (ground (arith, l.0, m.0), later ys l.1 m.1)

  abbrev pub signed : M → G → SignedMessage M G
  signed n g = record { signature = g; serialized_message = n }

  module _ (crypto : Crypto M G) where
    -- The messages that came, each with its signature, if any
    abbrev pub receive : List (M × Option G) → SignedByDb M G → SignedByDb M G
    receive [] db = db
    receive (x ∷ xs) db = receive xs (handle_signed_message crypto x.0 x.1 db)

    -- Whether the verifier ascribes a signature, not an empty one, to a key
    abbrev pub is_signature : ℕ → M → G → Bool
    is_signature key n g = elim (crypto.verify_message n g) [
      | none ↦ false
      | some signer ↦ not (crypto.is_empty_signature g) && key == signer
    ]

    -- The last of some messages that has the hash and came with a signature of the key
    abbrev pub last_signed :
        ℕ → ℕ → Option (SignedMessage M G) → List (M × Option G) → Option (SignedMessage M G)
    last_signed hash key before [] = before
    last_signed hash key before ((n, none) ∷ xs) = last_signed hash key before xs
    last_signed hash key before ((n, some g) ∷ xs) =
        last_signed hash key
          (if is_signature key n g && crypto.md5_hash n == hash then some (signed n g) else before)
          xs

    abbrev pub signature_of : Option (SignedMessage M G) → Option G
    signature_of none = none
    signature_of (some r) = some r.signature

    handle_signed_message-bucket :
        (key : ℕ) (n : M) (g : G) (db : SignedByDb M G)
        → handle_signed_message crypto n (some g) db key ≡ (
            if is_signature key n g
            then put_record (crypto.md5_hash n) (signed n g) (db key)
            else db key)
    unfolding handle_signed_message store_signed_message
    handle_signed_message-bucket key n g db = elim (Option-cases (crypto.verify_message n g)) [
      | inl e ↦
          let kept : is_signature key n g ≡ false = ground (arith, e) in
          rw kept (rw e (ground arith))
      | inr (signer, e) ↦ rw e (ground arith)
    ]

    get_record-handle :
        (hash key : ℕ) (n : M) (g : G) (db : SignedByDb M G)
        → get_record hash (handle_signed_message crypto n (some g) db key) ≡ (
            if is_signature key n g && crypto.md5_hash n == hash
            then some (signed n g)
            else get_record hash (db key))
    get_record-handle hash key n g db =
        ap (get_record hash) (handle_signed_message-bucket key n g db) ∙ at (is_signature key n g)
      where
        at :
            (b : Bool)
            → get_record hash
                (if b then put_record (crypto.md5_hash n) (signed n g) (db key) else db key)
              ≡ (if b && crypto.md5_hash n == hash
                  then some (signed n g)
                  else get_record hash (db key))
        at true = get_record-put_record hash (crypto.md5_hash n) (signed n g) (db key)
        at false = refl

    pub get_record-receive :
        (hash key : ℕ) (xs : List (M × Option G)) (db : SignedByDb M G)
        → get_record hash (receive xs db key) ≡ last_signed hash key (get_record hash (db key)) xs
    unfolding handle_signed_message
    get_record-receive hash key [] db = refl
    get_record-receive hash key ((n, none) ∷ xs) db = get_record-receive hash key xs db
    get_record-receive hash key ((n, some g) ∷ xs) db =
        get_record-receive hash key xs (handle_signed_message crypto n (some g) db)
        ∙ ap (λ o. last_signed hash key o xs) (get_record-handle hash key n g db)

    pub get_message_signature_lem :
        (m : M) (key : ℕ) (db : SignedByDb M G)
        → get_message_signature crypto m key db
          ≡ signature_of (get_record (crypto.md5_hash m) (db key))
    unfolding get_message_signature
    get_message_signature_lem m key db = at (get_record (crypto.md5_hash m) (db key))
      where
        at :
            (o : Option (SignedMessage M G))
            → elim o as (λ _. Option G) [ none ↦ none | some r ↦ some r.signature ] ≡ signature_of o
        at none = refl
        at (some r) = refl

    -- After messages on an empty database, `getMessageSignature` gives, for a message and a key, the
    -- signature of the last message that came with a signature, not an empty one, that the verifier
    -- ascribes to the key, among those with the same MD5 hash: the message in question, or another one.
    pub get_message_signature-receive :
        (m : M) (key : ℕ) (xs : List (M × Option G))
        → get_message_signature crypto m key (receive xs no_signatures)
          ≡ signature_of (last_signed (crypto.md5_hash m) key none xs)
    unfolding get_record
    get_message_signature-receive m key xs =
        get_message_signature_lem m key (receive xs no_signatures)
        ∙ ap signature_of (get_record-receive (crypto.md5_hash m) key xs no_signatures)

    -- The entries of each bucket stand in order, each under the hash of its message.
    abbrev pub IsSound : SignedByDb M G → Type 0
    IsSound db =
        (key : ℕ)
        → All (λ x. crypto.md5_hash x.1.serialized_message ≡ x.0) (db key) × IsSorted (db key)

    handle_signed_message-IsSound :
        (m : M) (o : Option G) (db : SignedByDb M G)
        → IsSound db
        → IsSound (handle_signed_message crypto m o db)
    unfolding handle_signed_message
    handle_signed_message-IsSound m none db h key = h key
    handle_signed_message-IsSound m (some g) db h key =
        subst P (sym (handle_signed_message-bucket key m g db)) (at (is_signature key m g))
      where
        P : List (ℕ × SignedMessage M G) → Type 0
        P xs = All (λ x. crypto.md5_hash x.1.serialized_message ≡ x.0) xs × IsSorted xs

        at :
            (b : Bool)
            → P (if b then put_record (crypto.md5_hash m) (signed m g) (db key) else db key)
        at false = h key
        at true = (
          put_record-All (λ x. crypto.md5_hash x.1.serialized_message ≡ x.0) (crypto.md5_hash m)
              (signed m g) (db key) refl (h key).0,
          put_record-IsSorted (crypto.md5_hash m) (signed m g) (db key) (h key).1,
        )

    pub receive-IsSound :
        (xs : List (M × Option G)) (db : SignedByDb M G) → IsSound db → IsSound (receive xs db)
    receive-IsSound [] db h = h
    receive-IsSound (x ∷ xs) db h =
        receive-IsSound xs (handle_signed_message crypto x.0 x.1 db)
          (handle_signed_message-IsSound x.0 x.1 db h)

    pub no_signatures-IsSound : IsSound no_signatures
    no_signatures-IsSound key = (tt, tt)
