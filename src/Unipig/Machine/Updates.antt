-- ===== src/Unipig/Machine/Updates.antt =====
-- What `applyTransaction` of packages/unipig/src/common/rollup-state-machine.ts returns for the state
-- it leaves.
use pigi.Prelude.{
  ℕ, ◌≡◌, ◌⊎◌, inl, inr, refl, sym, subst, ◌∙◌, ap, true, false, Option, none, some, arith, List,
  ◌==◌, ==_iff, Bool-cases,
}
use pigi.Unipig.Types.{State, Result, ok, err, sender_of}
use pigi.Unipig.Effects.{
  Config, Machine, SignedTransaction, StateUpdate, Action, ◌>>=◌, or_type_error, pure,
}
use pigi.Unipig.Keys.{get_address_key}
use pigi.Unipig.Machine.{
  inclusion_proof, slot_of, apply_kind, store_root, signed_by, apply_authorised, apply_transaction,
}

-- A sequence that succeeds is two actions that succeed.
pub bind-ok :
    {M A B : Type 0} (a : Action M A) (f : A → Action M B) (m m'' : M) (y : B)
    → (a >>= f) m ≡ (ok y, m'')
    → (x : A) × (m' : M) × (a m ≡ (ok x, m')) × (f x m' ≡ (ok y, m''))
unfolding ◌>>=◌
bind-ok {M} {A} {B} a f m m'' y h = at (a m) refl
  where
    at :
        (r : Result A × M)
        → a m ≡ r
        → (x : A) × (m' : M) × (a m ≡ (ok x, m')) × (f x m' ≡ (ok y, m''))
    at (ok x, m') e = (x, m', e, ground (arith, h, e))
    at (err z, m') e = absurd (ground (arith, h, e))

pub ok_eq : {M A : Type 0} (x y : A) (m m' : M) → pure x m ≡ (ok y, m') → (x ≡ y) × (m ≡ m')
ok_eq x y m m' e = (ground (arith, e), ground (arith, e))

or_type_error-ok :
    {M A : Type 0} (o : Option A) (m m' : M) (x : A)
    → or_type_error o m ≡ (ok x, m')
    → (o ≡ some x) × (m' ≡ m)
or_type_error-ok none m m' x h = absurd (ground (arith, h))
or_type_error-ok (some a) m m' x h = (ground (arith, h), ground (arith, h))

module _ {T L R S F : Type 0} (config : Config T L R S F) where
  -- The proof is the tree's for the key of the state's address.
  abbrev pub ProofOf : State → List R → Machine T R → Type 0
  ProofOf s p m =
      (k : ℕ) × (get_address_key s.pubkey m.keys ≡ some k)
      × (config.sparse_tree.get_merkle_proof m.tree k (config.serialize_state s) ≡ some p)

  inclusion_proof-ProofOf :
      (s : State) (m m' : Machine T R) (p : List R)
      → inclusion_proof config s m ≡ (ok p, m')
      → ProofOf s p m × (m' ≡ m)
  unfolding inclusion_proof
  inclusion_proof-ProofOf s m m' p h = at (get_address_key s.pubkey m.keys) refl
    where
      at : (o : Option ℕ) → get_address_key s.pubkey m.keys ≡ o → ProofOf s p m × (m' ≡ m)
      at none e = absurd (ground (arith, h, e))
      at (some k) e =
          let (q, z) =
            or_type_error-ok
              (config.sparse_tree.get_merkle_proof m.tree k (config.serialize_state s)) m m' p
              (ground (arith, h, e)) in
          ((k, e, q), z)

  -- What a state update says, in the state that is left.
  pub record Describes (tx : SignedTransaction S) (u : StateUpdate R S) (m' : Machine T R)
      : Type 0 where
    pub same : u.transaction ≡ tx
    pub authorised :
        (signed_by config tx ≡ sender_of tx.transaction)
        ⊎ (signed_by config tx ≡ config.aggregator_address)
    pub root : config.sparse_tree.get_root_hash m'.tree ≡ u.state_root
    pub stored : m'.stored_root ≡ some u.state_root
    pub sender_slot : get_address_key (sender_of tx.transaction) m'.keys ≡ some u.sender_slot_index
    pub sender_proof : ProofOf u.sender_state u.sender_state_inclusion_proof m'
    pub receiver_proof : ProofOf u.receiver_state u.receiver_state_inclusion_proof m'

  apply_authorised-Describes :
      (tx : SignedTransaction S) (m m' : Machine T R) (u : StateUpdate R S)
      → (signed_by config tx ≡ sender_of tx.transaction)
        ⊎ (signed_by config tx ≡ config.aggregator_address)
      → apply_authorised config tx m ≡ (ok u, m')
      → Describes tx u m'
  unfolding apply_authorised store_root
  apply_authorised-Describes tx m m' u auth h =
      let ((created, receiver, (sender_state, receiver_state)), m1, e1, h1) =
        bind-ok (apply_kind config (signed_by config tx) tx.transaction) _ m m' u h in
      let (receiver_slot, m2, e2, h2) = bind-ok (slot_of config receiver) _ m1 m' u h1 in
      let (stored, m3, e3, h3) = bind-ok (store_root config) _ m2 m' u h2 in
      let (sender_slot, m4, e4, h4) =
        bind-ok (slot_of config (sender_of tx.transaction)) _ m3 m' u h3 in
      let (sender_proof, m5, e5, h5) = bind-ok (inclusion_proof config sender_state) _ m4 m' u h4 in
      let (receiver_proof, m6, e6, h6) =
        bind-ok (inclusion_proof config receiver_state) _ m5 m' u h5 in
      let (s4, q4) =
        or_type_error-ok (get_address_key (sender_of tx.transaction) m3.keys) m3 m4 sender_slot
          e4 in
      let (s5, q5) = inclusion_proof-ProofOf sender_state m4 m5 sender_proof e5 in
      let (s6, q6) = inclusion_proof-ProofOf receiver_state m5 m6 receiver_proof e6 in
      let (q7, q8) = ok_eq _ u m6 m' h6 in
      let p4 : m4 ≡ m' = sym q5 ∙ sym q6 ∙ q8 in
      let p3 : m3 ≡ m' = sym q4 ∙ p4 in
      subst (λ r. Describes tx r m') q7
        (record {
          same = refl;
          authorised = auth;
          root = ap (λ m. config.sparse_tree.get_root_hash m.tree) (sym q8);
          stored =
              subst (λ m. m.stored_root ≡ some (config.sparse_tree.get_root_hash m.tree)) p3
                (ground (arith, e3))
              ∙ ap (λ m. some (config.sparse_tree.get_root_hash m.tree)) (sym q8);
          sender_slot =
              subst (λ m. get_address_key (sender_of tx.transaction) m.keys ≡ some sender_slot) p3
                s4;
          sender_proof = subst (ProofOf sender_state sender_proof) p4 s5;
          receiver_proof = subst (ProofOf receiver_state receiver_proof) (sym q6 ∙ q8) s6;
        })

  -- A transaction that is applied was signed by its sender or by the aggregator, and its state
  -- update describes the state that is left: the root is the tree's and is the stored one, and the
  -- sender's slot and the two proofs are those of that state.
  pub apply_transaction-Describes :
      (tx : SignedTransaction S) (m m' : Machine T R) (u : StateUpdate R S)
      → apply_transaction config tx m ≡ (ok u, m')
      → Describes tx u m'
  unfolding apply_transaction
  apply_transaction-Describes tx m m' u h =
      at (Bool-cases (signed_by config tx == sender_of tx.transaction))
        (Bool-cases (signed_by config tx == config.aggregator_address))
    where
      at :
          ((signed_by config tx == sender_of tx.transaction) ≡ true)
            ⊎ ((signed_by config tx == sender_of tx.transaction) ≡ false)
          → ((signed_by config tx == config.aggregator_address) ≡ true)
            ⊎ ((signed_by config tx == config.aggregator_address) ≡ false)
          → Describes tx u m'
      at (inl e) q =
          apply_authorised-Describes tx m m' u (inl ((==_iff _ _).0 e)) (ground (arith, h, e))
      at (inr n) (inl e) =
          apply_authorised-Describes tx m m' u (inr ((==_iff _ _).0 e)) (ground (arith, h, n, e))
      at (inr n) (inr k) = absurd (ground (arith, h, n, k))
