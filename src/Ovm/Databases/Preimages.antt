-- ===== src/Ovm/Databases/Preimages.antt =====
-- What the preimage database of packages/ovm/src/app/db holds after the messages that came.
use pigi.Prelude.{ℕ, ◌≡◌, some, List, [], ◌∷◌, arith, Option-cases, inl, inr}
use pigi.Ovm.Databases.{
  HashAlgorithm, md5, keccak256, Crypto, HashPreimageDb, no_preimages, store_preimage,
  handle_preimage_message, get_preimage,
}

module _ {M G : Type 0} where
  module _ (crypto : Crypto M G) where
    -- Each entry is a preimage of its hash.
    abbrev pub HasPreimages : HashPreimageDb M → Type 0
    HasPreimages db =
        (algorithm : HashAlgorithm) (hash : ℕ) (p : M)
        → get_preimage crypto hash algorithm db ≡ some p
        → crypto.hash_function_for algorithm p ≡ hash

    store_preimage-HasPreimages :
        (p : M) (algorithm : HashAlgorithm) (db : HashPreimageDb M)
        → HasPreimages db
        → HasPreimages (store_preimage crypto p algorithm db)
    unfolding store_preimage
    store_preimage-HasPreimages p md5 db h md5 hash q e = ground (arith, e, h md5 hash q)
    store_preimage-HasPreimages p keccak256 db h keccak256 hash q e =
        ground (arith, e, h keccak256 hash q)
    store_preimage-HasPreimages p md5 db h keccak256 hash q e = h keccak256 hash q e
    store_preimage-HasPreimages p keccak256 db h md5 hash q e = h md5 hash q e

    abbrev pub receive_preimages : List M → HashPreimageDb M → HashPreimageDb M
    receive_preimages [] db = db
    receive_preimages (m ∷ ms) db = receive_preimages ms (handle_preimage_message crypto m db)

    handle_preimage_message-HasPreimages :
        (m : M) (db : HashPreimageDb M)
        → HasPreimages db
        → HasPreimages (handle_preimage_message crypto m db)
    unfolding handle_preimage_message
    handle_preimage_message-HasPreimages m db h = elim (Option-cases (crypto.preimage_of m)) [
      | inl e ↦ rw (e, handle_preimage_message) h
      | inr (p, e) ↦ rw (e, handle_preimage_message) (store_preimage-HasPreimages p keccak256 db h)
    ]

    pub no_preimages-HasPreimages : HasPreimages no_preimages
    no_preimages-HasPreimages algorithm hash p e = absurd cc

    pub receive_preimages-HasPreimages :
        (ms : List M) (db : HashPreimageDb M)
        → HasPreimages db
        → HasPreimages (receive_preimages ms db)
    receive_preimages-HasPreimages [] db h = h
    receive_preimages-HasPreimages (m ∷ ms) db h =
        receive_preimages-HasPreimages ms (handle_preimage_message crypto m db)
          (handle_preimage_message-HasPreimages m db h)
