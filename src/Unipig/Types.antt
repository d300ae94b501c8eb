-- ===== src/Unipig/Types.antt =====
-- packages/unipig/src/types/types.ts and errors.ts. Addresses are only compared, so they are
-- numbers here; 0 is `NULL_ADDRESS`. Amounts are whole numbers.
use pigi.Prelude.{ℕ, Bool, true, false}
use pigi.Prelude.Int.{ℤ, pos}

abbrev pub Address : Type 0
Address = ℕ

-- `UNISWAP_ADDRESS`
abbrev pub uniswap_address : Address
uniswap_address = 0

pub data TokenType : Type 0 where
  uni_token pigi_token : TokenType

-- `swap.tokenType === UNI_TOKEN_TYPE ? PIGI_TOKEN_TYPE : UNI_TOKEN_TYPE`
abbrev pub other_token : TokenType → TokenType
other_token uni_token = pigi_token
other_token pigi_token = uni_token

pub record Balances : Type 0 where
  pub uni_balance : ℤ
  pub pigi_balance : ℤ

-- `balances[tokenType]`
abbrev pub balance : TokenType → Balances → ℤ
balance uni_token b = b.uni_balance
balance pigi_token b = b.pigi_balance

-- `balances[tokenType] = amount`
abbrev pub set_balance : TokenType → ℤ → Balances → Balances
set_balance uni_token x b = record b { uni_balance = x }
set_balance pigi_token x b = record b { pigi_balance = x }

abbrev pub no_balances : Balances
no_balances = record { uni_balance = pos 0; pigi_balance = pos 0 }

pub record State : Type 0 where
  pub pubkey : Address
  pub balances : Balances

pub record Transfer : Type 0 where
  pub sender : Address
  pub recipient : Address
  pub token_type : TokenType
  pub amount : ℤ

pub record Swap : Type 0 where
  pub sender : Address
  pub token_type : TokenType
  pub input_amount : ℤ
  pub min_output_amount : ℤ
  pub timeout : ℕ

pub record FaucetRequest : Type 0 where
  pub sender : Address
  pub amount : ℤ

-- `RollupTransaction`; the type guards test for the fields that only one kind has.
pub data RollupTransaction : Type 0 where
  swap_transaction : Swap → RollupTransaction
  transfer_transaction : Transfer → RollupTransaction
  faucet_transaction : FaucetRequest → RollupTransaction

abbrev pub sender_of : RollupTransaction → Address
sender_of (swap_transaction s) = s.sender
sender_of (transfer_transaction t) = t.sender
sender_of (faucet_transaction f) = f.sender

-- `type_error` is JavaScript's `TypeError`: here, a method of an undefined key.
pub data Error : Type 0 where
  slippage insufficient_balance negative_amount invalid_transaction_type : Error
  state_machine_capacity signature_error type_error : Error

-- `isStateTransitionError`
abbrev pub is_state_transition_error : Error → Bool
is_state_transition_error type_error = false
is_state_transition_error _ = true

pub data Result {ℓ} (A : Type ℓ) : Type ℓ where
  ok : A → Result A
  err : Error → Result A
