-- ===== src/Unipig/Machine/Swaps.antt =====
-- What `applySwap` of packages/unipig/src/common/rollup-state-machine.ts do to the
-- balances when they return.
use pigi.Prelude.{◌≡◌, refl, sym, ap, ◌∙◌, subst, arith, inl, inr}
use pigi.Prelude.Int.{ℤ, pos, ◌≤ℤ◌, ◌+ℤ◌, ◌-ℤ◌, ltb_ℤ, int_laws}
use pigi.Unipig.Types.{
  Address, uniswap_address, Balances, balance, other_token, State, Swap, TokenType, set_balance,
  uni_token, pigi_token, ok,
}
use pigi.Unipig.Effects.{Config, Machine}
use pigi.Unipig.Machine.{
  get_balances, new_output_balance, exchange, update_balances_from_swap, apply_swap,
}
use pigi.Unipig.Machine.Updates.{bind-ok}
use pigi.Unipig.Machine.Payments.{if-ok, balance_set, get_balances-state, Written, both-Written}

-- In each token, what one side of a swap loses the other gains.
swap_conserved :
    (token input : TokenType) (x y : ℤ) (b c : Balances)
    → let paid = set_balance input (balance input b -ℤ x) b in
      let got =
        set_balance
          (other_token input)
          (balance (other_token input) paid +ℤ (balance (other_token input) c -ℤ y))
          paid in
      balance token got
        +ℤ balance token
            (set_balance (other_token input) y (set_balance input (balance input c +ℤ x) c))
      ≡ balance token b +ℤ balance token c
swap_conserved uni_token uni_token x y b c = grind int_laws
swap_conserved uni_token pigi_token x y b c = grind int_laws
swap_conserved pigi_token uni_token x y b c = grind int_laws
swap_conserved pigi_token pigi_token x y b c = grind int_laws

module _ {T L R S F : Type 0} (config : Config T L R S F) where
  -- A swap of the address `a` that turned the balances `b` of Uniswap and `c` of the address into the
  -- given states.
  pub record Swaps (swap : Swap) (a : Address) (b c : Balances) (s u : State) (m m' : Machine T R)
      : Type 0 where
    pub uniswap_read : get_balances config uniswap_address m ≡ (ok b, m)
    pub sender_read : get_balances config a m ≡ (ok c, m)
    pub positive : pos 1 ≤ℤ swap.input_amount
    pub sender : s.pubkey ≡ a
    pub uniswap : u.pubkey ≡ uniswap_address
    pub output : balance (other_token swap.token_type) u.balances ≡ new_output_balance config swap b
    pub minimum :
        swap.min_output_amount
        ≤ℤ balance (other_token swap.token_type) b
          -ℤ balance (other_token swap.token_type) u.balances
    pub input : balance swap.token_type u.balances ≡ balance swap.token_type b +ℤ swap.input_amount
    pub conserved :
        (token : TokenType)
        → balance token s.balances +ℤ balance token u.balances ≡ balance token c +ℤ balance token b
    pub written : Written config s u m m'

  input_kept :
      (token : TokenType) (x y : ℤ) (b : Balances)
      → balance token (set_balance (other_token token) y (set_balance token x b)) ≡ x
  input_kept uni_token x y b = refl
  input_kept pigi_token x y b = refl

  exchange-Swaps :
      (swap : Swap) (a : Address) (b c : Balances) (m m' : Machine T R) (s u : State)
      → get_balances config uniswap_address m ≡ (ok b, m)
      → get_balances config a m ≡ (ok c, m)
      → pos 1 ≤ℤ swap.input_amount
      → swap.min_output_amount
        ≤ℤ balance (other_token swap.token_type) b -ℤ new_output_balance config swap b
      → exchange config swap a b c m ≡ (ok (s, u), m')
      → Swaps swap a b c s u m m'
  unfolding exchange
  exchange-Swaps swap a b c m m' s u ub sb positive enough e =
      let new = new_output_balance config swap b in
      let input = swap.token_type in
      let output = other_token input in
      let paid_in = set_balance input (balance input c -ℤ swap.input_amount) c in
      let (states, written) =
        both-Written config
          (record {
            pubkey = a;
            balances =
                set_balance output (balance output paid_in +ℤ (balance output b -ℤ new)) paid_in;
          })
          (record {
            pubkey = uniswap_address;
            balances =
                set_balance output new (set_balance input (balance input b +ℤ swap.input_amount) b);
          })
          s u m m' e in
      let paid =
        balance_set (other_token swap.token_type) new
          (set_balance swap.token_type (balance swap.token_type b +ℤ swap.input_amount) b) in
      subst (λ p. Swaps swap a b c p.0 p.1 m m') states
        (record {
          uniswap_read = ub;
          sender_read = sb;
          positive = positive;
          sender = refl;
          uniswap = refl;
          output = paid;
          minimum =
              subst (λ z. swap.min_output_amount ≤ℤ balance (other_token swap.token_type) b -ℤ z)
                (sym paid) enough;
          input = input_kept swap.token_type (balance swap.token_type b +ℤ swap.input_amount) new b;
          conserved = λ token. swap_conserved token swap.token_type swap.input_amount new c b;
          written = written;
        })

  -- `applySwap` returns only where the input amount is one or more and what it pays out, the fall of
  -- Uniswap's balance in the other token to the new one that the invariant gives, is at least the
  -- minimum. In the states that it returns and puts into the tree, the sender's first, Uniswap has the
  -- input amount more, and in each token the sum of the two balances is what it was.
  pub apply_swap-Swaps :
      (swap : Swap) (a : Address) (m m' : Machine T R) (s u : State)
      → apply_swap config a swap m ≡ (ok (s, u), m')
      → (b c : Balances) × Swaps swap a b c s u m m'
  unfolding apply_swap update_balances_from_swap
  apply_swap-Swaps swap a m m' s u e =
      elim (if-ok (ltb_ℤ swap.input_amount (pos 1)) _ _ m m' (s, u) e) [
        | inl (low, q) ↦ absurd (ground (arith, q))
        | inr (positive, e0) ↦
            let (b, m1, e1, e2) = bind-ok (get_balances config uniswap_address) _ m m' (s, u) e0 in
            let k1 = get_balances-state config uniswap_address m m1 b e1 in
            elim (if-ok
              (ltb_ℤ (balance (other_token swap.token_type) b -ℤ new_output_balance config swap b)
                swap.min_output_amount)
              _ _ m1 m' (s, u) e2) [
                | inl (slips, q) ↦ absurd (ground (arith, q))
                | inr (enough, e3) ↦
                    let (c, m2, f1, f2) = bind-ok (get_balances config a) _ m1 m' (s, u) e3 in
                    let k2 : m ≡ m2 = k1 ∙ get_balances-state config a m1 m2 c f1 in
                    (
                      b,
                      c,
                      exchange-Swaps swap a b c m m' s u
                          (subst (λ x. get_balances config uniswap_address m ≡ (ok b, x)) (sym k1)
                            e1)
                          (subst (λ x. get_balances config a m ≡ (ok c, x)) (sym k2)
                            (ap (get_balances config a) k1 ∙ f1))
                          (ground (arith, positive)) (ground (arith, enough))
                          (subst (λ x. exchange config swap a b c x ≡ (ok (s, u), m')) (sym k2) f2),
                    )
              ]
      ]
