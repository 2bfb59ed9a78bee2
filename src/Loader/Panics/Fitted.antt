-- ===== src/Loader/Panics/Fitted.antt =====
-- The changes of DeployWithMaxDataLen to two accounts with data of known lengths do not panic.
use solana_sdk_sample.Base.{
  ℕ, ◌+◌, ◌-◌, ◌≤◌, ◌≡◌, ◌≢◌, ap, Bool, true, false, List, arith, length, length-splice,
  length-drop,
}
use solana_sdk_sample.Runtime.Outcome.{Outcome, ok, panic}
use solana_sdk_sample.Runtime.Account.{Account, Pubkey, KeyedAccount, InvokeContext, BpfExecutor}
use solana_sdk_sample.Runtime.Action.{Action, modify_account, lamports_while, when}
use solana_sdk_sample.Runtime.Action.Calm.{
  Calm, CalmAfter, Calm-reads_bind, Calm-bind, Calm-modify_account,
}
use solana_sdk_sample.Runtime.Sdk.{Sdk}
use solana_sdk_sample.Runtime.Sdk.Laws.{IsStateCodec}
use solana_sdk_sample.State.{UpgradeableLoaderState}
use solana_sdk_sample.Loader.Accounts.{
  set_lamports, has_range, slice_while, write_range, with_state, credit, set_state_of,
}
use solana_sdk_sample.Loader.Close.{drain}
use solana_sdk_sample.Loader.Deploy.Commit.{copy_program, add_executor}
use solana_sdk_sample.Loader.Panics.{IsTotal, with_state-returns, credit-returns}

module _ (sdk : Sdk) (total : IsTotal sdk) (codec : IsStateCodec sdk) (accounts : List KeyedAccount)
    (p b : KeyedAccount) (n m : ℕ) where
  -- The two accounts have data of the given lengths.
  pub record Fitted (c : InvokeContext) : Type 0 where
    pub given : c.keyed_accounts ≡ ok accounts
    pub has_caller : c.caller ≢ panic
    pub size_p : length (c.cells p.cell).data_bytes ≡ n
    pub size_b : length (c.cells b.cell).data_bytes ≡ m

  pub Fitted-modify :
      (cell : ℕ) (f : Account → Outcome Account)
      → ((c : InvokeContext) → Fitted c → f (c.cells cell) ≢ panic)
      → ((c : InvokeContext) (y : Account)
          → Fitted c
          → f (c.cells cell) ≡ ok y
          → length y.data_bytes ≡ length (c.cells cell).data_bytes)
      → Calm Fitted (modify_account cell f) Fitted
  Fitted-modify cell f calm same = Calm-modify_account cell f calm λ c a h e. record {
    given = h.given;
    has_caller = h.has_caller;
    size_p = ground (arith, same c a h e, h.size_p, at c p);
    size_b = ground (arith, same c a h e, h.size_b, at c b);
  }
    where
      at : (c : InvokeContext) (x : KeyedAccount) → cell ≡ x.cell → c.cells cell ≡ c.cells x.cell
      at c x e = ap c.cells e

  pub Fitted-drain :
      (source recipient : KeyedAccount) → Calm Fitted (drain sdk source recipient) Fitted
  unfolding drain
  Fitted-drain source recipient =
      Calm-reads_bind (lamports_while recipient.cell source.cell) _ (λ c h e. ground arith)
        λ c h amount _.
          Calm-bind _ _
            (Fitted-modify recipient.cell (credit sdk amount)
              (λ c h. credit-returns sdk total accounts amount (c.cells recipient.cell))
              (λ c y h e. ground arith))
            λ _. Fitted-modify source.cell (set_lamports 0) (λ c h e. cc) (λ c y h e. ground arith)

  pub Fitted-set_state :
      (x : KeyedAccount) (s : UpgradeableLoaderState) → Calm Fitted (set_state_of sdk x s) Fitted
  Fitted-set_state x s =
      Fitted-modify x.cell (with_state sdk s)
        (λ c h. with_state-returns sdk total accounts s (c.cells x.cell))
        (λ c y h e.
          ground (arith, codec.length-set_state s (c.cells x.cell).data_bytes y.data_bytes))

  when-Calm :
      (test : Bool) (k : Action (Unit {0}))
      → Calm Fitted k Fitted
      → (c : InvokeContext) → Fitted c
      → CalmAfter Fitted (when test k c)
  unfolding when
  when-Calm true k t c h = t.at c h
  when-Calm false k t c h = h

  pub Fitted-when :
      (test : Bool) (k : Action (Unit {0}))
      → Calm Fitted k Fitted
      → Calm Fitted (when test k) Fitted
  Fitted-when test k t = record { at = when-Calm test k t }

  pub Fitted-add_executor : (k : Pubkey) (x : BpfExecutor) → Calm Fitted (add_executor k x) Fitted
  unfolding add_executor
  Fitted-add_executor k x = record {
    at = λ c h. record {
      given = h.given;
      has_caller = h.has_caller;
      size_p = h.size_p;
      size_b = h.size_b;
    };
  }

  module _ (fits : 45 + (m - 37) ≤ n) (has_metadata : 37 ≤ m) where
    Fitted-slice : (c : InvokeContext) → Fitted c → slice_while p.cell b.cell 37 (m - 37) c ≢ panic
    Fitted-slice c h e =
        ground (arith, h.size_b, has_metadata, length-drop 37 (c.cells b.cell).data_bytes)

    Fitted-range : (c : InvokeContext) → Fitted c → has_range p.cell 45 (m - 37) c ≢ panic
    Fitted-range c h e = ground (arith, h.size_p, fits)

    pub Fitted-copy_program : Calm Fitted (copy_program p 45 (m - 37) b 37) Fitted
    unfolding copy_program
    Fitted-copy_program = Calm-reads_bind (has_range p.cell 45 (m - 37)) _ Fitted-range λ c h _ _.
        Calm-reads_bind (slice_while p.cell b.cell 37 (m - 37)) _ Fitted-slice λ c h found ef.
          let size : length found ≡ m - 37 = ground arith in
          Fitted-modify p.cell (write_range 45 found)
            (λ c h e. ground (arith, h.size_p, fits, size))
            (λ c y h e.
              let in_range : 45 + length found ≤ length (c.cells p.cell).data_bytes =
                omega (arith, h.size_p, fits, size) in
              ground (arith, length-splice 45 found (c.cells p.cell).data_bytes in_range))
