-- ===== src/Unipig/Machine/Payments.antt =====
-- What `applyTransfer` of packages/unipig/src/common/rollup-state-machine.ts do to the
-- balances when they return.
use pigi.Prelude.{
  ℕ, ◌≡◌, refl, sym, ap, ◌∙◌, subst, Bool, Option, none, some, true, false, not, arith, inl, inr,
  ◌⊎◌, if◌then◌else◌,
}
use pigi.Prelude.Int.{ℤ, pos, ◌≤ℤ◌, ◌+ℤ◌, ◌-ℤ◌, ltb_ℤ, int_laws}
use pigi.Unipig.Types.{
  Address, Balances, balance, State, Transfer, TokenType, set_balance, uni_token, pigi_token,
  Result, ok, err,
}
use pigi.Unipig.Effects.{Config, Machine, Action, ◌>>=◌, pure, all_of_two}
use pigi.Unipig.Keys.{get_address_key}
use pigi.Unipig.Machine.{get_balances, set_address_state, has_balance, pay, apply_transfer}
use pigi.Unipig.Machine.Updates.{bind-ok, ok_eq}

pub if-ok :
    {M A : Type 0} (b : Bool) (a c : Action M A) (m m' : M) (x : A)
    → (if b then a else c) m ≡ (ok x, m')
    → ((b ≡ true) × (a m ≡ (ok x, m'))) ⊎ ((b ≡ false) × (c m ≡ (ok x, m')))
if-ok true a c m m' x e = inl (refl, e)
if-ok false a c m m' x e = inr (refl, e)

all_of_two-ok :
    {M A B : Type 0} (a : Action M A) (b : Action M B) (m m' : M)
    → all_of_two a b m ≡ (ok tt, m')
    → (x : A) × (m1 : M) × (y : B) × (a m ≡ (ok x, m1)) × (b m1 ≡ (ok y, m'))
all_of_two-ok {M} {A} {B} a b m m' e = at (a m) refl
  where
    at :
        (r : Result A × M)
        → a m ≡ r
        → (x : A) × (m1 : M) × (y : B) × (a m ≡ (ok x, m1)) × (b m1 ≡ (ok y, m'))
    at (err z, m1) q = absurd (ground (arith, q, e))
    at (ok x, m1) q = then_b (b m1) refl
      where
        then_b :
            (r : Result B × M)
            → b m1 ≡ r
            → (x : A) × (m1 : M) × (y : B) × (a m ≡ (ok x, m1)) × (b m1 ≡ (ok y, m'))
        then_b (err z, m2) p = absurd (ground (arith, q, p, e))
        then_b (ok y, m2) p = (x, m1, y, q, p ∙ ground (arith, q, p, e))

-- In each token, what the sender of a transfer loses the recipient gains.
paid_conserved :
    (token paid : TokenType) (x : ℤ) (b c : Balances)
    → balance token (set_balance paid (balance paid b -ℤ x) b)
        +ℤ balance token (set_balance paid (balance paid c +ℤ x) c)
      ≡ balance token b +ℤ balance token c
paid_conserved uni_token uni_token x b c = grind int_laws
paid_conserved uni_token pigi_token x b c = refl
paid_conserved pigi_token uni_token x b c = refl
paid_conserved pigi_token pigi_token x b c = grind int_laws

pub balance_set :
    (token : TokenType) (x : ℤ) (b : Balances) → balance token (set_balance token x b) ≡ x
balance_set uni_token x b = refl
balance_set pigi_token x b = refl

module _ {T L R S F : Type 0} (config : Config T L R S F) where
  pub get_balances-state :
      (a : Address) (m m' : Machine T R) (b : Balances)
      → get_balances config a m ≡ (ok b, m')
      → m ≡ m'
  unfolding get_balances
  get_balances-state a m m' b e = at (get_address_key a m.keys) refl
    where
      at : (o : Option ℕ) → get_address_key a m.keys ≡ o → m ≡ m'
      at none q = ground (arith, q, e)
      at (some k) q = leaf (config.sparse_tree.get_leaf m.tree k) refl
        where
          leaf : (l : Option L) → config.sparse_tree.get_leaf m.tree k ≡ l → m ≡ m'
          leaf none p = ground (arith, q, p, e)
          leaf (some l) p = decoded (config.deserialize_state l) refl
            where
              decoded : (s : Option State) → config.deserialize_state l ≡ s → m ≡ m'
              decoded none r = absurd (ground (arith, q, p, r, e))
              decoded (some s) r = ground (arith, q, p, r, e)

  -- Two states were put into the tree, one after the other.
  abbrev pub Written : State → State → Machine T R → Machine T R → Type 0
  Written s r m m' =
      (x y : Bool) × (m1 : Machine T R) × (set_address_state config s.pubkey s.balances m
        ≡ (ok x, m1))
      × (set_address_state config r.pubkey r.balances m1 ≡ (ok y, m'))

  pub both-Written :
      (s r s' r' : State) (m m' : Machine T R)
      → ◌>>=◌ {B = State × State}
          (all_of_two
            (set_address_state config s.pubkey s.balances)
            (set_address_state config r.pubkey r.balances))
          (λ done. pure (s, r))
          m
        ≡ (ok (s', r'), m')
      → (◌≡◌ {A = State × State} (s, r) (s', r')) × Written s r m m'
  both-Written s r s' r' m m' e =
      let first = set_address_state config s.pubkey s.balances in
      let second = set_address_state config r.pubkey r.balances in
      let (done, m1, e1, e2) =
        bind-ok (all_of_two first second) (λ done. pure (s, r)) m m' (s', r') e in
      let (x, m2, y, w1, w2) = all_of_two-ok first second m m1 e1 in
      let (states, kept) = ok_eq (s, r) (s', r') m1 m' e2 in
      (states, (x, y, m2, w1, w2 ∙ ap (λ z. (ok y, z)) kept))

  -- A transfer that turned the balances `b` of its sender and `c` of its recipient into the given states.
  pub record Pays (t : Transfer) (b c : Balances) (s r : State) (m m' : Machine T R) : Type 0 where
    pub sender_read : get_balances config t.sender m ≡ (ok b, m)
    pub recipient_read : get_balances config t.recipient m ≡ (ok c, m)
    pub positive : pos 1 ≤ℤ t.amount
    pub covered : t.amount ≤ℤ balance t.token_type b
    pub sender : s.pubkey ≡ t.sender
    pub recipient : r.pubkey ≡ t.recipient
    pub received : balance t.token_type r.balances ≡ balance t.token_type c +ℤ t.amount
    pub conserved :
        (token : TokenType)
        → balance token s.balances +ℤ balance token r.balances ≡ balance token b +ℤ balance token c
    pub written : Written s r m m'

  pay-Pays :
      (t : Transfer) (b c : Balances) (m m' : Machine T R) (s r : State)
      → get_balances config t.sender m ≡ (ok b, m)
      → get_balances config t.recipient m ≡ (ok c, m)
      → pos 1 ≤ℤ t.amount
      → t.amount ≤ℤ balance t.token_type b
      → pay config t b c m ≡ (ok (s, r), m')
      → Pays t b c s r m m'
  unfolding pay
  pay-Pays t b c m m' s r sb rb positive covered e =
      let (states, written) =
        both-Written
          (record {
            pubkey = t.sender;
            balances = set_balance t.token_type (balance t.token_type b -ℤ t.amount) b;
          })
          (record {
            pubkey = t.recipient;
            balances = set_balance t.token_type (balance t.token_type c +ℤ t.amount) c;
          })
          s r m m' e in
      subst (λ p. Pays t b c p.0 p.1 m m') states
        (record {
          sender_read = sb;
          recipient_read = rb;
          positive = positive;
          covered = covered;
          sender = refl;
          recipient = refl;
          received = balance_set t.token_type (balance t.token_type c +ℤ t.amount) c;
          conserved = λ token. paid_conserved token t.token_type t.amount b c;
          written = written;
        })

  -- `applyTransfer` returns only where the amount is one or more and the sender's balance covers it. In
  -- the states that it returns and puts into the tree, the sender's first, the recipient has the amount
  -- more than it had, and in each token the sum of the two balances is what it was.
  pub apply_transfer-Pays :
      (t : Transfer) (m m' : Machine T R) (s r : State)
      → apply_transfer config t m ≡ (ok (s, r), m')
      → (b c : Balances) × Pays t b c s r m m'
  unfolding apply_transfer has_balance
  apply_transfer-Pays t m m' s r e = elim (if-ok (ltb_ℤ t.amount (pos 1)) _ _ m m' (s, r) e) [
    | inl (low, q) ↦ absurd (ground (arith, q))
    | inr (positive, e0) ↦
        let (enough, m1, e1, e2) =
          bind-ok (has_balance config t.sender t.token_type t.amount) _ m m' (s, r) e0 in
        let (b0, m0, f0, f1) = bind-ok (get_balances config t.sender) _ m m1 enough e1 in
        let kept0 = get_balances-state t.sender m m0 b0 f0 in
        let (is_enough, kept1) = ok_eq _ enough m0 m1 f1 in
        let kept : m ≡ m1 = kept0 ∙ kept1 in
        elim (if-ok (not enough) _ _ m1 m' (s, r) e2) [
          | inl (poor, q) ↦ absurd (ground (arith, q))
          | inr (rich, e3) ↦
              let (b, m2, g0, g1) = bind-ok (get_balances config t.sender) _ m1 m' (s, r) e3 in
              let (c, m3, h0, h1) = bind-ok (get_balances config t.recipient) _ m2 m' (s, r) g1 in
              let k2 : m ≡ m2 = kept ∙ get_balances-state t.sender m1 m2 b g0 in
              let k3 : m ≡ m3 = k2 ∙ get_balances-state t.recipient m2 m3 c h0 in
              let same : get_balances config t.sender m ≡ (ok b, m) =
                subst (λ x. get_balances config t.sender m ≡ (ok b, x)) (sym k2)
                  (ap (get_balances config t.sender) kept ∙ g0) in
              let b_same : b0 ≡ b = ground (arith, sym f0 ∙ same) in
              (
                b,
                c,
                pay-Pays t b c m m' s r same
                    (subst (λ x. get_balances config t.recipient m ≡ (ok c, x)) (sym k3)
                      (ap (get_balances config t.recipient) k2 ∙ h0))
                    (ground (arith, positive))
                    (subst (λ x. t.amount ≤ℤ balance t.token_type x) b_same
                      (ground (arith, is_enough, rich)))
                    (subst (λ x. pay config t b c x ≡ (ok (s, r), m')) (sym k3) h1),
              )
        ]
  ]

  -- Where an address transfers to itself, `applyTransfer`, when it returns, has put a state of that
  -- address into the tree last that has the amount more than the address had.
  pub apply_transfer_self :
      (t : Transfer) (m m' : Machine T R) (s r : State)
      → t.sender ≡ t.recipient
      → apply_transfer config t m ≡ (ok (s, r), m')
      → (b : Balances) × (get_balances config t.sender m ≡ (ok b, m))
        × (r.pubkey ≡ t.sender)
        × (balance t.token_type r.balances ≡ balance t.token_type b +ℤ t.amount)
        × ((y : Bool) × (m1 : Machine T R) × (set_address_state config t.sender r.balances m1
              ≡ (ok y, m')))
  apply_transfer_self t m m' s r same e =
      let (b, c, p) = apply_transfer-Pays t m m' s r e in
      let (x, y, m1, w1, w2) = p.written in
      let own : r.pubkey ≡ t.sender = p.recipient ∙ sym same in
      (
        c,
        ap (λ a. get_balances config a m) same ∙ p.recipient_read,
        own,
        p.received,
        (y, m1, ap (λ a. set_address_state config a r.balances m1) (sym own) ∙ w2),
      )
