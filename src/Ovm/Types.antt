-- ===== src/Ovm/Types.antt =====
-- The data of packages/ovm/src/types/decider.interface.ts and quantifier.interface.ts. A property
-- is a decider with its input: one constructor for each decider class, and `external` for the
-- deciders over databases, signatures and hashes, whose properties are the values of a type `X`.
use pigi.Prelude.{String, Bool, List, ◌≡◌, refl}
use pigi.Prelude.Int.{ℤ}

-- What a decider throws: a `CannotDecideError`, or any other error with its message.
pub data Error : Type 0 where
  cannot_decide : String → Error
  other_error : String → Error

pub data Result {ℓ} (A : Type ℓ) : Type ℓ where
  ok : A → Result A
  err : Error → Result A

infixl 5 ◌>>=◌
abbrev pub ◌>>=◌ {ℓ κ} : {A : Type ℓ} {B : Type κ} → Result A → (A → Result B) → Result B
ok a >>= f = f a
err e >>= f = err e

pub ok-injective {ℓ} : {A : Type ℓ} {a b : A} → ok a ≡ ok b → a ≡ b
ok-injective e = cc

-- Inversion of a bind that succeeds.
pub >>=-eq-ok {ℓ κ} :
    {A : Type ℓ} {B : Type κ} (r : Result A) (f : A → Result B) {b : B}
    → (r >>= f) ≡ ok b
    → (a : A) × (r ≡ ok a) × (f a ≡ ok b)
>>=-eq-ok (ok a) f h = (a, refl, h)
>>=-eq-ok (err e) f h = cc

-- A value that a quantifier ranges over, or that is compared: a number or anything else.
pub data Value (V : Type 0) : Type 0 where
  number : ℤ → Value V
  object : V → Value V

pub data Quantifier (Q : Type 0) : Type 0 where
  integer_range : ℤ → ℤ → Quantifier Q
  nonnegative_integer_less_than : ℤ → Quantifier Q
  external_quantifier : Q → Quantifier Q

pub record QuantifierResult (V : Type 0) : Type 0 where
  pub results : List (Value V)
  pub all_results_quantified : Bool

mutual
  pub data Property (X Q V : Type 0) : Type 0 where
    and_decider : Properties X Q V → Property X Q V
    or_decider : Properties X Q V → Property X Q V
    not_decider : Property X Q V → Property X Q V
    for_all_such_that : Quantifier Q → (Value V → Property X Q V) → Property X Q V
    there_exists_such_that : Quantifier Q → (Value V → Property X Q V) → Property X Q V
    equality_decider : List (Value V) → Property X Q V
    true_decider : Value V → Property X Q V
    false_decider : Value V → Property X Q V
    cannot_decide_decider : Value V → Property X Q V
    external : X → Property X Q V

  pub data Properties (X Q V : Type 0) : Type 0 where
    nil : Properties X Q V
    cons : Property X Q V → Properties X Q V → Properties X Q V

-- `implicationWitness: any`, by the values that the deciders give it.
pub data Witness (V : Type 0) : Type 0 where
  undefined : Witness V
  truth : Witness V
  mismatched_items : Value V → Value V → Witness V
  witness : V → Witness V

pub record ImplicationProofItem (X Q V : Type 0) : Type 0 where
  pub implication : Property X Q V
  pub implication_witness : Witness V

pub record Decision (X Q V : Type 0) : Type 0 where
  pub outcome : Bool
  pub justification : List (ImplicationProofItem X Q V)
