-- ===== src/Token/Laws.antt =====
-- programs/simple-token/src/lib.rs: what the handlers do to the balances.
use solana_sdk_sample.Base.{ℕ, ◌+◌, ◌-◌, ◌≤◌, ◌<◌, ◌≡◌, ◌≢◌, ◌↔◌, ap, sym, ◌∙◌, arith, u64_bound}
use solana_sdk_sample.Runtime.Outcome.{ok}
use solana_sdk_sample.Runtime.Account.{Pubkey}
use solana_sdk_sample.Token.{TokenAccount, mint, burn, transfer}
use solana_sdk_sample.Token.Run.{Anchor, IsFaithful, run_mint, run_burn, run_transfer}

-- The handler of Transfer, on its two copies, takes the amount from the one and adds it to the other
-- exactly when the sender has it and the receiver's balance stays in `u64`.
pub transfer_iff :
    (from to : TokenAccount) (n : ℕ)
    → (transfer from to n
        ≡ ok (record from { amount = from.amount - n }, record to { amount = to.amount + n }))
      ↔ ((n ≤ from.amount) × (to.amount + n < u64_bound))
unfolding transfer
transfer_iff from to n = (λ e. (ground arith, ground arith), λ h. ground (arith, h.0, h.1))

-- The ledger after a Transfer of `n` tokens between two accounts that held `f` and `t`.
pub record Moved {Ledger : Type 0} (anchor : Anchor Ledger) (from_key to_key : Pubkey)
    (f t : TokenAccount) (n : ℕ) (l l' : Ledger) : Type 0 where
  pub enough : n ≤ f.amount
  pub sender : anchor.load from_key l' ≡ ok (record f { amount = f.amount - n })
  pub receiver : anchor.load to_key l' ≡ ok (record t { amount = t.amount + n })
  pub others : (k : Pubkey) → from_key ≢ k → to_key ≢ k → anchor.load k l' ≡ anchor.load k l

-- What an instruction that loads `f` and `t` writes back.
pub run_transfer-exits :
    {Ledger : Type 0} (anchor : Anchor Ledger) (from_key to_key : Pubkey) (n : ℕ) (l l' : Ledger)
    (f t : TokenAccount)
    → anchor.load from_key l ≡ ok f
    → anchor.load to_key l ≡ ok t
    → run_transfer anchor from_key to_key n l ≡ ok l'
    → (n ≤ f.amount)
      × (l'
          ≡ anchor.exit to_key
              (record t { amount = t.amount + n })
              (anchor.exit from_key (record f { amount = f.amount - n }) l))
unfolding run_transfer transfer
run_transfer-exits anchor from_key to_key n l l' f t ef et e = (ground arith, ground arith)

-- A Transfer between two different accounts that succeeds takes the amount, which the sender has,
-- from the one and adds it to the other, and no other account changes. The framework reads back
-- what it wrote.
pub run_transfer-Moved :
    {Ledger : Type 0} (anchor : Anchor Ledger) (from_key to_key : Pubkey) (n : ℕ) (l l' : Ledger)
    (f t : TokenAccount)
    → IsFaithful anchor
    → from_key ≢ to_key
    → anchor.load from_key l ≡ ok f
    → anchor.load to_key l ≡ ok t
    → run_transfer anchor from_key to_key n l ≡ ok l'
    → Moved anchor from_key to_key f t n l l'
run_transfer-Moved anchor from_key to_key n l l' f t law ne ef et e =
    let (enough, left) = run_transfer-exits anchor from_key to_key n l l' f t ef et e in
    record {
      enough = enough;
      sender =
          ap (anchor.load from_key) left
          ∙ law.load-exit_ne to_key from_key _ _ (λ h. ne (sym h))
          ∙ law.load-exit_self from_key _ l;
      receiver = ap (anchor.load to_key) left ∙ law.load-exit_self to_key _ _;
      others = λ k nf nt.
          ap (anchor.load k) left
          ∙ law.load-exit_ne to_key k _ _ nt
          ∙ law.load-exit_ne from_key k _ l nf;
    }

-- A Transfer from an account to itself that succeeds leaves the account with the amount on top of
-- what it held, so it makes tokens: the second copy is written back last. The framework reads back
-- what it wrote.
pub run_transfer_self :
    {Ledger : Type 0} (anchor : Anchor Ledger) (key : Pubkey) (n : ℕ) (l l' : Ledger)
    (a : TokenAccount)
    → IsFaithful anchor
    → anchor.load key l ≡ ok a
    → run_transfer anchor key key n l ≡ ok l'
    → anchor.load key l' ≡ ok (record a { amount = a.amount + n })
run_transfer_self anchor key n l l' a law ea e =
    ap (anchor.load key) (run_transfer-exits anchor key key n l l' a a ea ea e).1
    ∙ law.load-exit_self key _ _

-- What a Mint, and the Burn of as many tokens after it, write back.
run_mint-exits :
    {Ledger : Type 0} (anchor : Anchor Ledger) (key : Pubkey) (n : ℕ) (l l' : Ledger)
    (a : TokenAccount)
    → anchor.load key l ≡ ok a
    → run_mint anchor key n l ≡ ok l'
    → l' ≡ anchor.exit key (record a { amount = a.amount + n }) l
unfolding run_mint mint
run_mint-exits anchor key n l l' a ea e = ground arith

run_burn-exits :
    {Ledger : Type 0} (anchor : Anchor Ledger) (key : Pubkey) (n : ℕ) (l : Ledger)
    (a : TokenAccount)
    → anchor.load key l ≡ ok (record a { amount = a.amount + n })
    → run_burn anchor key n l ≡ ok (anchor.exit key a l)
unfolding run_burn burn
run_burn-exits anchor key n l a ea = ground arith

-- The account `key` held `a`, holds `n` more tokens in `l'`, and a Burn of those gives `a` back.
pub record Undone {Ledger : Type 0} (anchor : Anchor Ledger) (key : Pubkey) (n : ℕ)
    (a : TokenAccount) (l' : Ledger) : Type 0 where
  pub minted : anchor.load key l' ≡ ok (record a { amount = a.amount + n })
  pub l'' : Ledger
  pub burns : run_burn anchor key n l' ≡ ok l''
  pub back : anchor.load key l'' ≡ ok a

-- After a Mint that succeeds the account holds the amount on top of what it held, and a Burn of the
-- same amount succeeds and leaves the account with what it held before. The framework reads back
-- what it wrote.
pub run_burn-run_mint :
    {Ledger : Type 0} (anchor : Anchor Ledger) (key : Pubkey) (n : ℕ) (l l' : Ledger)
    (a : TokenAccount)
    → IsFaithful anchor
    → anchor.load key l ≡ ok a
    → run_mint anchor key n l ≡ ok l'
    → Undone anchor key n a l'
run_burn-run_mint anchor key n l l' a law ea e =
    let minted =
      ap (anchor.load key) (run_mint-exits anchor key n l l' a ea e)
      ∙ law.load-exit_self key (record a { amount = a.amount + n }) l in
    record {
      minted = minted;
      l'' = anchor.exit key a l';
      burns = run_burn-exits anchor key n l' a minted;
      back = law.load-exit_self key a l';
    }
