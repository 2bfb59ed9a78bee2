-- ===== src/Token/Supply.antt =====
-- programs/simple-token/src/lib.rs: the number of tokens, over any sequence of instructions.
use solana_sdk_sample.Base.{
  ℕ, zero, suc, ◌+◌, ◌-◌, ◌≤◌, ◌<◌, ◌≡◌, ◌≢◌, refl, ap, sym, arith, Bool-cases, ◌==◌, inl, inr,
}
use solana_sdk_sample.Runtime.Outcome.{Outcome, ok, err, panic, ◌>>=◌}
use solana_sdk_sample.Runtime.Account.{Pubkey}
use solana_sdk_sample.Token.{TokenAccount, mint, burn, transfer}
use solana_sdk_sample.Token.Laws.{run_transfer-exits}
use solana_sdk_sample.Token.Run.{Anchor, IsFaithful, run_mint, run_burn, run_transfer}

abbrev balance_of : Outcome TokenAccount → ℕ
balance_of (ok a) = a.amount
balance_of (err e) = 0
balance_of panic = 0

module _ {Ledger : Type 0} (anchor : Anchor Ledger) where
  -- The tokens of the accounts whose keys are below `n`.
  abbrev pub supply : ℕ → Ledger → ℕ
  supply zero l = 0
  supply (suc n) l = supply n l + balance_of (anchor.load n l)

  -- Mints, Burns and Transfers between different accounts that succeed, one after another, with the
  -- numbers of tokens minted and burned.
  pub data History (n : ℕ) (l : Ledger) : ℕ → ℕ → Ledger → Type 0 where
    start : History n l 0 0 l
    then_mint :
        {minted burned : ℕ} {l' l'' : Ledger}
        → History n l minted burned l'
        → (key : Pubkey) (amount : ℕ) → key < n
        → run_mint anchor key amount l' ≡ ok l''
        → History n l (minted + amount) burned l''
    then_burn :
        {minted burned : ℕ} {l' l'' : Ledger}
        → History n l minted burned l'
        → (key : Pubkey) (amount : ℕ) → key < n
        → run_burn anchor key amount l' ≡ ok l''
        → History n l minted (burned + amount) l''
    then_transfer :
        {minted burned : ℕ} {l' l'' : Ledger}
        → History n l minted burned l'
        → (from to : Pubkey) (amount : ℕ) → from < n
        → to < n
        → from ≢ to
        → run_transfer anchor from to amount l' ≡ ok l''
        → History n l minted burned l''

  module _ (law : IsFaithful anchor) where
    -- The keys below an account's own key do not see it.
    supply-exit_above :
        (n : ℕ) (k : Pubkey) (a : TokenAccount) (l : Ledger)
        → n ≤ k
        → supply n (anchor.exit k a l) ≡ supply n l
    supply-exit_above zero k a l h = refl
    supply-exit_above (suc n) k a l h = omega (
      arith,
      supply-exit_above n k a l (omega arith),
      ap balance_of (law.load-exit_ne k n a l (λ e. absurd (omega (arith, e)))),
    )

    supply-exit :
        (n : ℕ) (k : Pubkey) (a : TokenAccount) (l : Ledger)
        → k < n
        → supply n (anchor.exit k a l) + balance_of (anchor.load k l) ≡ supply n l + a.amount
    supply-exit zero k a l h = absurd (omega arith)
    supply-exit (suc n) k a l h = elim (Bool-cases (k == n)) [
      | inl same ↦
          let e : k ≡ n = ground (arith, same) in
          omega (
            arith,
            supply-exit_above n k a l (omega (arith, e)),
            ap (λ j. balance_of (anchor.load j (anchor.exit k a l))) (sym e),
            ap balance_of (law.load-exit_self k a l),
            ap (λ j. balance_of (anchor.load j l)) e,
          )
      | inr other ↦
          let ne : k ≢ n = λ e. ground (arith, other, e) in
          omega (
            arith,
            supply-exit n k a l (omega (arith, ne, h)),
            ap balance_of (law.load-exit_ne k n a l ne),
          )
    ]

    -- What an instruction on one account has loaded.
    bind_ok :
        {A B : Type 0} (r : Outcome A) (f : A → Outcome B) (b : B)
        → r >>= f ≡ ok b
        → (a : A) × (r ≡ ok a)
    bind_ok (ok a) f b e = (a, refl)
    bind_ok (err x) f b e = cc
    bind_ok panic f b e = cc

    run_mint-supply :
        (n : ℕ) (key : Pubkey) (amount : ℕ) (l l' : Ledger)
        → key < n
        → run_mint anchor key amount l ≡ ok l'
        → supply n l' ≡ supply n l + amount
    unfolding run_mint mint
    run_mint-supply n key amount l l' below e =
        let (a, ea) = bind_ok (anchor.load key l) _ l' e in
        let next : TokenAccount = record a { amount = a.amount + amount } in
        let left : l' ≡ anchor.exit key next l = ground (arith, ea) in
        omega (arith, ap (supply n) left, supply-exit n key next l below, ap balance_of ea)

    run_burn-supply :
        (n : ℕ) (key : Pubkey) (amount : ℕ) (l l' : Ledger)
        → key < n
        → run_burn anchor key amount l ≡ ok l'
        → supply n l' + amount ≡ supply n l
    unfolding run_burn burn
    run_burn-supply n key amount l l' below e =
        let (a, ea) = bind_ok (anchor.load key l) _ l' e in
        let next : TokenAccount = record a { amount = a.amount - amount } in
        let left : (amount ≤ a.amount) × (l' ≡ anchor.exit key next l) =
          (ground (arith, ea), ground (arith, ea)) in
        omega
          (arith, left.0, ap (supply n) left.1, supply-exit n key next l below, ap balance_of ea)

    run_transfer-supply :
        (n : ℕ) (from to : Pubkey) (amount : ℕ) (l l' : Ledger)
        → from < n
        → to < n
        → from ≢ to
        → run_transfer anchor from to amount l ≡ ok l'
        → supply n l' ≡ supply n l
    unfolding run_transfer transfer
    run_transfer-supply n from to amount l l' below_from below_to ne e =
        let (f, ef) = bind_ok (anchor.load from l) _ l' e in
        let found : (t : TokenAccount) × (anchor.load to l ≡ ok t) =
          bind_ok (anchor.load to l) _ l' (rw ef at e) in
        let (t, et) = found in
        let sender : TokenAccount = record f { amount = f.amount - amount } in
        let receiver : TokenAccount = record t { amount = t.amount + amount } in
        let middle : Ledger = anchor.exit from sender l in
        let (enough, left) = run_transfer-exits anchor from to amount l l' f t ef et e in
        omega (
          arith,
          enough,
          ap (supply n) left,
          supply-exit n from sender l below_from,
          supply-exit n to receiver middle below_to,
          ap balance_of ef,
          ap balance_of et,
          ap balance_of (law.load-exit_ne from to sender l ne),
        )

    -- Over any sequence of Mints, Burns and Transfers between different accounts that succeed, the
    -- tokens of the accounts are those at the start and the minted ones, less the burned ones. The
    -- framework reads back what it wrote.
    pub History-supply :
        (n : ℕ) (l : Ledger) (minted burned : ℕ) (l' : Ledger)
        → History n l minted burned l'
        → supply n l' + burned ≡ supply n l + minted
    History-supply n l m b end start = refl
    History-supply n l m b end (then_mint {minted} {burned} {l'} {l''} h key amount below e) =
        omega (
          arith,
          History-supply n l minted burned l' h,
          run_mint-supply n key amount l' l'' below e,
        )
    History-supply n l m b end (then_burn {minted} {burned} {l'} {l''} h key amount below e) =
        omega (
          arith,
          History-supply n l minted burned l' h,
          run_burn-supply n key amount l' l'' below e,
        )
    History-supply n l m b end
          (then_transfer {minted} {burned} {l'} {l''} h from to amount below_from below_to ne e) =
        omega (
          arith,
          History-supply n l minted burned l' h,
          run_transfer-supply n from to amount l' l'' below_from below_to ne e,
        )
