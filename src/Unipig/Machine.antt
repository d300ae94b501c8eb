-- ===== src/Unipig/Machine.antt =====
-- packages/unipig/src/common/rollup-state-machine.ts: the methods of `DefaultRollupStateMachine`
-- that apply transactions. The lock makes each call run to its end. The tree, the ABI encoding of a
-- state, the recovery of a signer and the arithmetic of JavaScript numbers are parameters.
pub mod Updates
pub mod Payments
pub mod Swaps
mod Examples
use pigi.Prelude.{
  ℕ, zero, suc, Bool, true, false, ◌&&◌, not, Option, none, some, List, [], ◌∷◌, ◌++◌, ◌==◌,
  if◌then◌else◌,
}
use pigi.Prelude.Int.{ℤ, pos, ◌+ℤ◌, ◌-ℤ◌, ◌*ℤ◌, ltb_ℤ, leb_ℤ}
use pigi.Unipig.Types.{
  Address, uniswap_address, TokenType, uni_token, pigi_token, other_token, Balances, balance,
  set_balance, no_balances, State, Transfer, Swap, RollupTransaction, swap_transaction,
  transfer_transaction, faucet_transaction, sender_of, Error, slippage, insufficient_balance,
  negative_amount, invalid_transaction_type, signature_error, type_error, Result, ok, err,
}
use pigi.Unipig.Effects.{
  Tree, Doubles, Config, Machine, SignedTransaction, StateUpdate, Action, ◌>>=◌, raise, pure,
  or_type_error, all_of_two,
}
use pigi.Unipig.Keys.{KeyTable, get_address_key, get_or_create_address_key}

module _ {T L R S F : Type 0} (config : Config T L R S F) where
  -- `getBalances`
  unfoldable pub get_balances : Address → Action (Machine T R) Balances
  get_balances a m = elim (get_address_key a m.keys) [
    | none ↦ (ok no_balances, m)
    | some k ↦ elim (config.sparse_tree.get_leaf m.tree k) [
      | none ↦ (ok no_balances, m)
      | some leaf ↦ elim (config.deserialize_state leaf) [
        | none ↦ (err type_error, m)
        | some s ↦ (ok s.balances, m)
      ]
    ]
  ]

  -- `setAddressState`; its callers do not look at the result.
  unfoldable pub set_address_state : Address → Balances → Action (Machine T R) Bool
  set_address_state a b m =
      let (r, keys') = get_or_create_address_key config.max_addresses a m.keys in
      elim r [
        | err e ↦ (err e, record m { keys = keys' })
        | ok k ↦
            let (done, tree') =
              config.sparse_tree.update m.tree k
                (config.serialize_state (record { pubkey = a; balances = b })) in
            (ok done, record m { keys = keys'; tree = tree' })
      ]

  -- `hasBalance`
  unfoldable pub has_balance : Address → TokenType → ℤ → Action (Machine T R) Bool
  unfolding get_balances
  has_balance a token x = get_balances a >>= λ b. pure (leb_ℤ x (balance token b))

  -- The end of `applyTransfer`, from the update of the balances that it has read: the new states of the
  -- sender and the recipient
  unfoldable pub pay : Transfer → Balances → Balances → Action (Machine T R) (State × State)
  unfolding set_address_state
  pay t sender_balances recipient_balances =
      let sender_after =
        set_balance t.token_type (balance t.token_type sender_balances -ℤ t.amount)
          sender_balances in
      let recipient_after =
        set_balance t.token_type (balance t.token_type recipient_balances +ℤ t.amount)
          recipient_balances in
      all_of_two (set_address_state t.sender sender_after)
        (set_address_state t.recipient recipient_after)
      >>= λ done. pure (
        record { pubkey = t.sender; balances = sender_after },
        record { pubkey = t.recipient; balances = recipient_after },
      )

  -- `applyTransfer`
  unfoldable pub apply_transfer : Transfer → Action (Machine T R) (State × State)
  unfolding has_balance pay
  apply_transfer t =
      if ltb_ℤ t.amount (pos 1)
      then raise negative_amount
      else (has_balance t.sender t.token_type t.amount >>= λ enough.
          if not enough
          then raise insufficient_balance
          else (get_balances t.sender >>= λ sender_balances.
              get_balances t.recipient >>= λ recipient_balances.
              pay t sender_balances recipient_balances))

  -- `assessSwapFee`
  unfoldable pub assess_swap_fee : ℤ → F
  assess_swap_fee amount =
      let d = config.doubles in
      if leb_ℤ config.swap_fee_basis_points (pos 0) && leb_ℤ (pos 0) config.swap_fee_basis_points
      then d.of_ℤ amount
      else d.times (d.of_ℤ amount) (
          d.over (d.minus (d.of_ℤ (pos 10000)) (d.of_ℤ config.swap_fee_basis_points))
            (d.of_ℤ (pos 10000)))

  -- `newOutputBalance` in `updateBalancesFromSwap`: Math.ceil(invariant / totalInput).
  unfoldable pub new_output_balance : Swap → Balances → ℤ
  unfolding assess_swap_fee
  new_output_balance swap uniswap =
      let d = config.doubles in
      let invariant = uniswap.uni_balance *ℤ uniswap.pigi_balance in
      let total_input =
        d.plus (assess_swap_fee swap.input_amount) (d.of_ℤ (balance swap.token_type uniswap)) in
      d.ceil (d.over (d.of_ℤ invariant) total_input)

  -- The end of `updateBalancesFromSwap`, from the update of the balances that it has read: the new
  -- states of the sender and of Uniswap
  unfoldable pub exchange :
      Swap → Address → Balances → Balances → Action (Machine T R) (State × State)
  unfolding set_address_state new_output_balance
  exchange swap sender uniswap senders =
      let input = swap.token_type in
      let output = other_token swap.token_type in
      let new_output = new_output_balance swap uniswap in
      let output_amount = balance output uniswap -ℤ new_output in
      let sender_in = set_balance input (balance input senders -ℤ swap.input_amount) senders in
      let sender_after = set_balance output (balance output sender_in +ℤ output_amount) sender_in in
      let uniswap_in = set_balance input (balance input uniswap +ℤ swap.input_amount) uniswap in
      let uniswap_after = set_balance output new_output uniswap_in in
      all_of_two (set_address_state sender sender_after)
        (set_address_state uniswap_address uniswap_after)
      >>= λ done. pure (
        record { pubkey = sender; balances = sender_after },
        record { pubkey = uniswap_address; balances = uniswap_after },
      )

  -- `updateBalancesFromSwap`
  unfoldable pub update_balances_from_swap : Swap → Address → Action (Machine T R) (State × State)
  unfolding get_balances new_output_balance exchange
  update_balances_from_swap swap sender = get_balances uniswap_address >>= λ uniswap.
      let output = other_token swap.token_type in
      if ltb_ℤ (balance output uniswap -ℤ new_output_balance swap uniswap) swap.min_output_amount
      then raise slippage
      else (get_balances sender >>= λ senders. exchange swap sender uniswap senders)

  -- `applySwap`. The test `!this.hasBalance(...)` negates a promise, which is never false, so that
  -- it throws nothing.
  unfoldable pub apply_swap : Address → Swap → Action (Machine T R) (State × State)
  unfolding update_balances_from_swap
  apply_swap sender swap =
      if ltb_ℤ swap.input_amount (pos 1)
      then raise negative_amount
      else update_balances_from_swap swap sender

  -- `inclusionProof` in `applyTransaction`
  unfoldable pub inclusion_proof : State → Action (Machine T R) (List R)
  inclusion_proof s m = elim (get_address_key s.pubkey m.keys) [
    | none ↦ (err type_error, m)
    | some k ↦
        or_type_error (config.sparse_tree.get_merkle_proof m.tree k (config.serialize_state s)) m
  ]

  abbrev pub slot_of : Address → Action (Machine T R) ℕ
  slot_of a m = or_type_error (get_address_key a m.keys) m

  -- `stateUpdate['receiverCreated']` and the updated states, by the kind of the transaction, with
  -- the address whose slot is the receiver's.
  unfoldable pub apply_kind :
      Address → RollupTransaction → Action (Machine T R) (Bool × Address × (State × State))
  unfolding apply_transfer apply_swap
  apply_kind signer (transfer_transaction t) m =
      let created : Bool = elim (get_address_key t.recipient m.keys) [
        | none ↦ true
        | some k ↦ false
      ] in
      (apply_transfer t >>= λ states. pure (created, t.recipient, states)) m
  apply_kind signer (swap_transaction s) m =
      (apply_swap signer s >>= λ states. pure (false, uniswap_address, states)) m
  apply_kind signer (faucet_transaction f) m = (err invalid_transaction_type, m)

  -- `await this.db.put(ROOT_KEY, root)`
  unfoldable pub store_root : Action (Machine T R) Unit
  store_root m = (ok tt, record m { stored_root = some (config.sparse_tree.get_root_hash m.tree) })

  abbrev pub signed_by : SignedTransaction S → Address
  signed_by tx = config.verify_message tx.transaction tx.signature

  -- `applyTransaction`, after the test of the signature
  unfoldable pub apply_authorised : SignedTransaction S → Action (Machine T R) (StateUpdate R S)
  unfolding apply_kind store_root inclusion_proof
  apply_authorised tx = apply_kind (signed_by tx) tx.transaction >>= λ kind.
      let (created, receiver, states) = kind in
      let (sender_state, receiver_state) = states in
      slot_of receiver >>= λ receiver_slot. store_root >>= λ stored.
      slot_of (sender_of tx.transaction) >>= λ sender_slot.
      inclusion_proof sender_state >>= λ sender_proof.
      inclusion_proof receiver_state >>= λ receiver_proof. λ m. (
        ok (record {
          transaction = tx;
          state_root = config.sparse_tree.get_root_hash m.tree;
          sender_slot_index = sender_slot;
          receiver_slot_index = receiver_slot;
          sender_state = sender_state;
          sender_state_inclusion_proof = sender_proof;
          receiver_state = receiver_state;
          receiver_state_inclusion_proof = receiver_proof;
          receiver_created = created;
        }),
        m,
      )

  -- `applyTransaction`
  unfoldable pub apply_transaction : SignedTransaction S → Action (Machine T R) (StateUpdate R S)
  unfolding apply_authorised
  apply_transaction tx =
      if not (signed_by tx == sender_of tx.transaction)
        && not (signed_by tx == config.aggregator_address)
      then raise signature_error
      else apply_authorised tx

  -- `applyTransactions`
  unfoldable pub apply_transactions :
      List (SignedTransaction S) → Action (Machine T R) (List (StateUpdate R S))
  unfolding apply_transaction
  apply_transactions [] = pure []
  apply_transactions (tx ∷ txs) =
      apply_transaction tx >>= λ u. apply_transactions txs >>= λ us. pure (u ∷ us)
