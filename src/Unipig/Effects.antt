-- ===== src/Unipig/Effects.antt =====
-- What packages/unipig/src/common/rollup-state-machine.ts works with: its state, the parts of other
-- packages that are parameters of the model, and calls that change the state and may throw.
use pigi.Prelude.{ℕ, Bool, Option, none, some, List}
use pigi.Prelude.Int.{ℤ}
use pigi.Unipig.Types.{Address, State, RollupTransaction, Error, type_error, Result, ok, err}
use pigi.Unipig.Keys.{KeyTable}

-- What the machine uses of `SparseMerkleTree`. `update` returns whether it succeeded; a proof is
-- the list of its siblings.
pub record Tree (T L R : Type 0) : Type 0 where
  pub get_leaf : T → ℕ → Option L
  pub update : T → ℕ → L → Bool × T
  pub get_root_hash : T → R
  pub get_merkle_proof : T → ℕ → L → Option (List R)

-- The JavaScript numbers that need not be whole, and `Math.ceil`.
pub record Doubles (F : Type 0) : Type 0 where
  pub of_ℤ : ℤ → F
  pub plus : F → F → F
  pub minus : F → F → F
  pub times : F → F → F
  pub over : F → F → F
  pub ceil : F → ℤ

-- The parameters of `create`, and the functions of other packages.
pub record Config (T L R S F : Type 0) : Type 0 where
  pub sparse_tree : Tree T L R
  pub doubles : Doubles F
  pub serialize_state : State → L
  -- `none` where the leaf is not an encoded state, and decoding throws
  pub deserialize_state : L → Option State
  pub verify_message : RollupTransaction → S → Address
  pub aggregator_address : Address
  pub swap_fee_basis_points : ℤ
  pub max_addresses : ℕ

pub record Machine (T R : Type 0) : Type 0 where
  pub keys : KeyTable
  pub tree : T
  pub stored_root : Option R

pub record SignedTransaction (S : Type 0) : Type 0 where
  pub signature : S
  pub transaction : RollupTransaction

pub record StateUpdate (R S : Type 0) : Type 0 where
  pub transaction : SignedTransaction S
  pub state_root : R
  pub sender_slot_index : ℕ
  pub receiver_slot_index : ℕ
  pub sender_state : State
  pub sender_state_inclusion_proof : List R
  pub receiver_state : State
  pub receiver_state_inclusion_proof : List R
  pub receiver_created : Bool

-- The `StateSnapshot` of an address; `none` stands for `undefined`, as a slot for
-- `NON_EXISTENT_SLOT_INDEX`.
pub record AddressSnapshot (R : Type 0) : Type 0 where
  pub slot_index : Option ℕ
  pub state : Option State
  pub state_root : R
  pub inclusion_proof : Option (List R)

-- What was changed before an error stays changed.
abbrev pub Action : Type 0 → Type 0 → Type 0
Action M A = M → Result A × M

infixl 5 ◌>>=◌
unfoldable pub ◌>>=◌ : {M A B : Type 0} → Action M A → (A → Action M B) → Action M B
◌>>=◌ a f m = let (r, m') = a m in elim r [ ok x ↦ f x m' | err e ↦ (err e, m') ]

abbrev pub raise : {M A : Type 0} → Error → Action M A
raise e m = (err e, m)

abbrev pub pure : {M A : Type 0} → A → Action M A
pure a m = (ok a, m)

-- A value, or an error that is not a `StateTransitionError`
abbrev pub or_type_error : {M A : Type 0} → Option A → Action M A
or_type_error none = raise type_error
or_type_error (some a) = pure a

-- `Promise.all` of two actions, one after the other: the second runs whether or not the first fails.
abbrev pub all_of_two : {M A B : Type 0} → Action M A → Action M B → Action M Unit
all_of_two a b m =
    let (r, m') = a m in
    let (s, m'') = b m' in
    (elim r [ err e ↦ err e | ok x ↦ elim s [ err e ↦ err e | ok y ↦ ok tt ] ], m'')
