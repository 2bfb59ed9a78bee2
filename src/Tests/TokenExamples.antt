-- ===== src/Tests/TokenExamples.antt =====
-- The theorems on the simple token, at concrete inputs.
use solana_sdk_sample.Base.{
  ℕ, ◌+◌, ◌≤◌, ◌<◌, ◌↔◌, u64_bound, ◌≡◌, refl, ==_refl, ==_ne, ◌==◌, if◌then◌else◌, arith,
}
use solana_sdk_sample.Runtime.Outcome.{ok}
use solana_sdk_sample.Runtime.Account.{Pubkey}
use solana_sdk_sample.Token.{TokenAccount, mint, burn, transfer}
use solana_sdk_sample.Token.Run.{Anchor, IsFaithful, run_mint, run_burn, run_transfer}
use solana_sdk_sample.Token.Supply.{
  supply, start, then_mint, then_burn, then_transfer, History-supply,
}
use solana_sdk_sample.Token.Laws.{
  transfer_iff, Moved, Undone, run_transfer-Moved, run_transfer_self, run_burn-run_mint,
}

-- A ledger as a function, with the accounts' balances.
abbrev Ledger : Type 0
Ledger = Pubkey → TokenAccount

abbrev put : Pubkey → TokenAccount → Ledger → Ledger
put k a l j = if k == j then a else l j

abbrev demo_anchor : Anchor Ledger
demo_anchor = record {
  load = λ k l. ok (l k);
  exit = put;
  create = λ k user l. ok (put k (record { amount = 0 }) l);
}

demo_anchor-IsFaithful : IsFaithful demo_anchor
demo_anchor-IsFaithful = record {
  load-exit_self = λ k a l. rw (==_refl k);
  load-exit_ne = λ k j a l ne. rw (==_ne k j ne);
}

abbrev holding : ℕ → TokenAccount
holding n = record { amount = n }

abbrev demo_ledger : Ledger
demo_ledger k = if k == 1 then holding 70 else holding 20

abbrev moved : Ledger
moved = put 2 (holding 50) (put 1 (holding 40) demo_ledger)

transfer_runs : run_transfer demo_anchor 1 2 30 demo_ledger ≡ ok moved
unfolding run_transfer transfer
transfer_runs = refl

run_transfer-Moved_example : Moved demo_anchor 1 2 (holding 70) (holding 20) 30 demo_ledger moved
run_transfer-Moved_example =
    run_transfer-Moved demo_anchor 1 2 30 demo_ledger moved (holding 70) (holding 20)
      demo_anchor-IsFaithful (omega arith) refl refl transfer_runs

abbrev doubled : Ledger
doubled = put 1 (holding 140) (put 1 (holding 0) demo_ledger)

self_runs : run_transfer demo_anchor 1 1 70 demo_ledger ≡ ok doubled
unfolding run_transfer transfer
self_runs = refl

run_transfer_self_example : demo_anchor.load 1 doubled ≡ ok (holding 140)
run_transfer_self_example =
    run_transfer_self demo_anchor 1 70 demo_ledger doubled (holding 70) demo_anchor-IsFaithful refl
      self_runs

abbrev minted : Ledger
minted = put 2 (holding 25) demo_ledger

mint_runs : run_mint demo_anchor 2 5 demo_ledger ≡ ok minted
unfolding run_mint mint
mint_runs = refl

run_burn-run_mint_example : Undone demo_anchor 2 5 (holding 20) minted
run_burn-run_mint_example =
    run_burn-run_mint demo_anchor 2 5 demo_ledger minted (holding 20) demo_anchor-IsFaithful refl
      mint_runs

transfer_iff_example :
    (transfer (holding 70) (holding 20) 30 ≡ ok (holding 40, holding 50))
    ↔ ((30 ≤ 70) × (20 + 30 < u64_bound))
transfer_iff_example = transfer_iff (holding 70) (holding 20) 30

abbrev burned : Ledger
burned = put 1 (holding 60) minted

burn_runs : run_burn demo_anchor 1 10 minted ≡ ok burned
unfolding run_burn burn
burn_runs = refl

abbrev shared : Ledger
shared = put 1 (holding 65) (put 2 (holding 20) burned)

share_runs : run_transfer demo_anchor 2 1 5 burned ≡ ok shared
unfolding run_transfer transfer
share_runs = refl

-- A Mint of 5, a Burn of 10 and a Transfer.
History-supply_example : supply demo_anchor 3 shared + 10 ≡ supply demo_anchor 3 demo_ledger + 5
History-supply_example =
    History-supply demo_anchor demo_anchor-IsFaithful 3 demo_ledger 5 10 shared (
      then_transfer
        (then_burn (then_mint start 2 5 (omega arith) mint_runs) 1 10 (omega arith) burn_runs) 2 1 5
        (omega arith) (omega arith) (λ e. cc) share_runs)
