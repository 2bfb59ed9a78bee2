-- ===== src/Loader/Panics/Upgrade.antt =====
-- Upgrade does not panic: its checks keep the slices in range.
use solana_sdk_sample.Base.{
  ℕ, ◌+◌, ◌-◌, ◌^◌, ◌≤◌, ◌<◌, ◌≡◌, ◌≢◌, ap, List, arith, length, replicate, length-splice,
  length-drop, length-replicate,
}
use solana_sdk_sample.Runtime.Outcome.{Outcome, ok, panic, add_u64}
use solana_sdk_sample.Runtime.Account.{Account, KeyedAccount, InvokeContext}
use solana_sdk_sample.Runtime.Action.{modify_account, lamports_while}
use solana_sdk_sample.Runtime.Action.Calm.{
  Calm, Calm-lift_bind, Calm-reads_bind, Calm-bind, Calm-weaken, Calm-modify_account,
}
use solana_sdk_sample.Runtime.Sdk.{Sdk}
use solana_sdk_sample.Runtime.Sdk.Laws.{IsStateCodec}
use solana_sdk_sample.Loader.Accounts.{set_lamports, zero_from, has_range, slice_while, write_range}
use solana_sdk_sample.Loader.Deploy.Commit.{copy_program}
use solana_sdk_sample.Loader.Upgrade.Commit.{fund_programdata}
use solana_sdk_sample.Loader.Panics.{IsTotal, Given, credit-returns, Calm-modify}

-- Each account has less than half of what `u64` holds.
abbrev pub Small : InvokeContext → Type 0
Small c = (x : ℕ) → (c.cells x).lamports < 2 ^ 63

-- The data of each account can be addressed.
abbrev pub Addressable : InvokeContext → Type 0
Addressable c = (x : ℕ) → length (c.cells x).data_bytes < 2 ^ 63

module _ (sdk : Sdk) (total : IsTotal sdk) (codec : IsStateCodec sdk)
    (accounts : List KeyedAccount) where
  module _ (p b : KeyedAccount) (n m : ℕ) where
    -- The two accounts have data of the given lengths.
    pub record Sized (c : InvokeContext) : Type 0 where
      pub given : c.keyed_accounts ≡ ok accounts
      pub small : Small c
      pub size_p : length (c.cells p.cell).data_bytes ≡ n
      pub size_b : length (c.cells b.cell).data_bytes ≡ m

    pub Sized-modify :
        (f : Account → Outcome Account)
        → ((c : InvokeContext) → Sized c → f (c.cells p.cell) ≢ panic)
        → ((c : InvokeContext) (y : Account)
            → Sized c
            → f (c.cells p.cell) ≡ ok y
            → (length y.data_bytes ≡ length (c.cells p.cell).data_bytes)
              × (y.lamports ≡ (c.cells p.cell).lamports))
        → Calm Sized (modify_account p.cell f) Sized
    Sized-modify f calm same = Calm-modify_account p.cell f calm λ c a h e.
        let (size, lamports) = same c a h e in
        record {
          given = h.given;
          small = λ x. ground (arith, lamports, h.small x, h.small p.cell);
          size_p = ground (arith, size, h.size_p);
          size_b = ground (arith, size, h.size_b, at c);
        }
      where
        at : (c : InvokeContext) → p.cell ≡ b.cell → c.cells p.cell ≡ c.cells b.cell
        at c e = ap c.cells e

    module _ (fits : 8 + m ≤ n) (has_metadata : 37 ≤ m) where
      slice_returns :
          (c : InvokeContext) → Sized c → slice_while p.cell b.cell 37 (m - 37) c ≢ panic
      slice_returns c h e =
          ground (arith, h.size_b, has_metadata, length-drop 37 (c.cells b.cell).data_bytes)

      range_returns : (c : InvokeContext) → Sized c → has_range p.cell 45 (m - 37) c ≢ panic
      range_returns c h e = ground (arith, h.size_p, fits, has_metadata)

      pub Calm-copy_program : Calm Sized (copy_program p 45 (m - 37) b 37) Sized
      unfolding copy_program
      Calm-copy_program = Calm-reads_bind (has_range p.cell 45 (m - 37)) _ range_returns λ c h _ _.
          Calm-reads_bind (slice_while p.cell b.cell 37 (m - 37)) _ slice_returns λ c h found ef.
            let size : length found ≡ m - 37 = ground arith in
            Sized-modify (write_range 45 found)
              (λ c h e. ground (arith, h.size_p, fits, has_metadata, size))
              (λ c y h e.
                let in_range : 45 + length found ≤ length (c.cells p.cell).data_bytes =
                  omega (arith, h.size_p, fits, has_metadata, size) in
                (
                  ground (arith, length-splice 45 found (c.cells p.cell).data_bytes in_range),
                  ground arith,
                ))

      pub Calm-zero_from : Calm Sized (modify_account p.cell (zero_from (45 + (m - 37)))) Sized
      Calm-zero_from =
          Sized-modify (zero_from (45 + (m - 37)))
            (λ c h e. ground (arith, h.size_p, fits, has_metadata))
            (λ c y h e.
              let old = (c.cells p.cell).data_bytes in
              let rest = length old - (45 + (m - 37)) in
              let in_range : 45 + (m - 37) + length (replicate {A = ℕ} rest 0) ≤ length old =
                omega (arith, h.size_p, fits, has_metadata, length-replicate {A = ℕ} rest 0) in
              (
                ground (arith, length-splice (45 + (m - 37)) (replicate rest 0) old in_range),
                ground arith,
              ))

      pub Calm-fund :
          (spill : KeyedAccount) (required : ℕ)
          → Calm Sized (fund_programdata sdk p b spill required) (Given sdk total accounts)
      unfolding fund_programdata
      Calm-fund spill required =
          Calm-reads_bind (lamports_while spill.cell p.cell) _ (λ c h e. ground arith)
            λ c h held eh.
              Calm-reads_bind (lamports_while spill.cell b.cell) _ (λ c h e. ground arith)
                λ d k brought eb.
                  Calm-lift_bind (add_u64 held brought) _
                    (λ e. ground (arith, eh, eb, h.small p.cell, k.small b.cell))
                    λ funds _.
                      Calm-weaken _
                        (Calm-bind _ _
                          (Calm-modify sdk total accounts spill.cell _
                            (credit-returns sdk total accounts _))
                          λ _.
                            Calm-bind _ _
                              (Calm-modify sdk total accounts b.cell (set_lamports 0) (λ a e. cc))
                              λ _.
                                Calm-modify sdk total accounts p.cell (set_lamports required)
                                  (λ a e. cc))
                        (λ c h. h.given)
