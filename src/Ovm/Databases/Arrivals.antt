-- ===== src/Ovm/Databases/Arrivals.antt =====
-- The messages that came to packages/ovm/src/app/db, and the last one of them with a hash and a key
use pigi.Prelude.{
  ℕ, ◌≡◌, refl, ap, subst, true, false, ◌&&◌, Option, none, some, List, [], ◌∷◌, ◌==◌,
  if◌then◌else◌, arith, Bool-cases, inl, inr, ap₂, ◌≢◌, Any, ◌⊎◌,
}
use pigi.Ovm.Databases.{SignedMessage, Crypto}
use pigi.Ovm.Databases.Contents.{signed, is_signature, last_signed}

module _ {M G : Type 0} (crypto : Crypto M G) where
  -- A message with the hash came with a signature that the verifier ascribes to the key.
  abbrev pub Came : ℕ → ℕ → List (M × Option G) → Type 0
  Came hash key xs =
      (n : M) × (g : G) × (crypto.md5_hash n ≡ hash)
      × (is_signature crypto key n g ≡ true)
      × Any (λ x. x ≡ (n, some g)) xs

  abbrev Stands :
      ℕ → ℕ → Option (SignedMessage M G) → SignedMessage M G → List (M × Option G) → Type 0
  Stands hash key before r xs =
      (before ≡ some r)
      ⊎ ((crypto.md5_hash r.serialized_message ≡ hash)
          × (is_signature crypto key r.serialized_message r.signature ≡ true)
          × Any (λ x. x ≡ (r.serialized_message, some r.signature)) xs)

  pub last_signed-some :
      (hash key : ℕ) (before : Option (SignedMessage M G)) (r : SignedMessage M G)
      (xs : List (M × Option G))
      → last_signed crypto hash key before xs ≡ some r
      → Stands hash key before r xs
  last_signed-some hash key before r [] e = inl e
  last_signed-some hash key before r ((n, none) ∷ xs) e =
      elim (last_signed-some hash key before r xs e) [
        | inl q ↦ inl q
        | inr (h, s, a) ↦ inr (h, s, inr a)
      ]
  last_signed-some hash key before r ((n, some g) ∷ xs) e =
      elim (last_signed-some hash key
        (if is_signature crypto key n g && crypto.md5_hash n == hash
          then some (signed n g)
          else before)
        r xs e) [
          | inr (h, s, a) ↦ inr (h, s, inr a)
          | inl q ↦ elim (Bool-cases (is_signature crypto key n g && crypto.md5_hash n == hash)) [
            | inr other ↦ inl (ground (arith, other, q))
            | inl taken ↦
                let same : signed n g ≡ r = ground (arith, taken, q) in
                inr (
                  subst
                    (λ (x : SignedMessage M G).
                      (crypto.md5_hash x.serialized_message ≡ hash)
                      × (is_signature crypto key x.serialized_message x.signature ≡ true)
                      × Any (λ y. y ≡ (x.serialized_message, some x.signature)) ((n, some g) ∷ xs))
                    same (ground (arith, taken), ground (arith, taken), inl refl))
          ]
        ]

  last_signed_stays :
      (hash key : ℕ) (r : SignedMessage M G) (xs : List (M × Option G))
      → last_signed crypto hash key (some r) xs ≢ none
  last_signed_stays hash key r [] e = absurd (ground (arith, e))
  last_signed_stays hash key r ((n, none) ∷ xs) e = last_signed_stays hash key r xs e
  last_signed_stays hash key r ((n, some g) ∷ xs) e =
      elim (Bool-cases (is_signature crypto key n g && crypto.md5_hash n == hash)) [
        | inl t ↦ last_signed_stays hash key (signed n g) xs (rw t at e)
        | inr t ↦ last_signed_stays hash key r xs (rw t at e)
      ]

  pub last_signed-none :
      (hash key : ℕ) (xs : List (M × Option G))
      → last_signed crypto hash key none xs ≡ none
      → ¬ Came hash key xs
  last_signed-none hash key [] e (m, h, c, s, a) = absurd a
  last_signed-none hash key ((n, none) ∷ xs) e (m, h, c, s, inl q) =
      absurd (ground (arith, ap (λ x. x.1) q))
  last_signed-none hash key ((n, none) ∷ xs) e (m, h, c, s, inr a) =
      last_signed-none hash key xs e (m, h, c, s, a)
  last_signed-none hash key ((n, some g) ∷ xs) e (m, h, c, s, a) =
      elim (Bool-cases (is_signature crypto key n g && crypto.md5_hash n == hash)) [
        | inl t ↦ absurd (last_signed_stays hash key (signed n g) xs (rw t at e))
        | inr t ↦ elim a [
          | inr later ↦ last_signed-none hash key xs (rw t at e) (m, h, c, s, later)
          | inl q ↦
              let same : n ≡ m = ap (λ x. x.0) q in
              let given : g ≡ h = ground (arith, ap (λ x. x.1) q) in
              absurd (
                ground (
                  arith,
                  t,
                  ap₂ (is_signature crypto key) same given,
                  ap crypto.md5_hash same,
                  c,
                  s,
                ))
        ]
      ]

  pub is_signature_there :
      (key : ℕ) (r : SignedMessage M G)
      → is_signature crypto key r.serialized_message r.signature ≡ true
      → crypto.is_empty_signature r.signature ≡ false
  is_signature_there key r s = at (crypto.verify_message r.serialized_message r.signature) refl
    where
      at :
          (o : Option ℕ)
          → crypto.verify_message r.serialized_message r.signature ≡ o
          → crypto.is_empty_signature r.signature ≡ false
      at none q = absurd (ground (arith, q, s))
      at (some k) q = ground (arith, q, s)
