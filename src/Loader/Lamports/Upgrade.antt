-- ===== src/Loader/Lamports/Upgrade.antt =====
-- Upgrade moves lamports between three different accounts, and their sum is kept.
use solana_sdk_sample.Base.{
  ℕ, zero, suc, ◌+◌, ◌-◌, ◌≤◌, ◌<◌, ◌≡◌, ◌≢◌, refl, sym, subst, List, arith, saturating_sub,
}
use solana_sdk_sample.Runtime.Outcome.{Outcome, ok}
use solana_sdk_sample.Runtime.Account.{
  Account, Cells, Pubkey, KeyedAccount, InvokeContext, BpfExecutor, update,
}
use solana_sdk_sample.Runtime.Action.{modify_account, lamports_while}
use solana_sdk_sample.Runtime.Action.Triple.{
  Triple, Keeps, Triple-reads, Triple-reads_bind, Triple-lift_bind, Triple-bind,
  Triple-modify_account, Triple-weaken,
}
use solana_sdk_sample.Runtime.Sdk.{Sdk}
use solana_sdk_sample.Runtime.Sdk.Laws.{IsCheckedAdd}
use solana_sdk_sample.Loader.Accounts.{set_lamports, write_range, slice_while, has_range, credit}
use solana_sdk_sample.Loader.Deploy.Commit.{add_executor, copy_program}
use solana_sdk_sample.Loader.Upgrade.Commit.{fund_programdata}
use solana_sdk_sample.Loader.Lamports.{total, total-update}
use solana_sdk_sample.Loader.Lamports.Steps.{Holds, credit-lamports}

total-ext :
    (n : ℕ) (f g : Cells) → ((p : ℕ) → (f p).lamports ≡ (g p).lamports) → total n f ≡ total n g
total-ext zero f g h = refl
total-ext (suc n) f g h = omega (arith, h n, total-ext n f g h)

module _ (start : Cells) (accounts : List KeyedAccount) where
  -- Every account has the lamports that it had at the start.
  pub record Untouched (c : InvokeContext) : Type 0 where
    pub each : (p : ℕ) → (c.cells p).lamports ≡ (start p).lamports
    pub same_accounts : c.keyed_accounts ≡ ok accounts

  Untouched-update :
      (c : InvokeContext) (cell : ℕ) (a : Account)
      → Untouched c
      → a.lamports ≡ (c.cells cell).lamports
      → Untouched (record c { cells = update c.cells cell a })
  Untouched-update c cell a h same = record {
    each = λ p. ground (arith, h.each p, h.each cell, at_cell p);
    same_accounts = h.same_accounts;
  }
    where
      at_cell : (p : ℕ) → cell ≡ p → (start cell).lamports ≡ (start p).lamports
      at_cell p e = λ i. (start (e i)).lamports

  pub Untouched-same_lamports :
      (cell : ℕ) (f : Account → Outcome Account)
      → ((x y : Account) → f x ≡ ok y → y.lamports ≡ x.lamports)
      → Keeps Untouched (modify_account cell f)
  Untouched-same_lamports cell f same =
      Triple-modify_account cell f λ c a h e. Untouched-update c cell a h (same (c.cells cell) a e)

  pub Untouched-add_executor : (k : Pubkey) (e : BpfExecutor) → Keeps Untouched (add_executor k e)
  unfolding add_executor
  Untouched-add_executor k e = record {
    at = λ c h. record { each = h.each; same_accounts = h.same_accounts };
  }

  -- The copy returns for two different accounts only.
  unfoldable pub Copied : KeyedAccount → KeyedAccount → InvokeContext → Type 0
  Copied programdata buffer c = Untouched c × (programdata.cell ≢ buffer.cell)

  pub Untouched-copy_program :
      (programdata buffer : KeyedAccount) (from_start k from : ℕ)
      → Triple Untouched
          (copy_program programdata from_start k buffer from)
          (Copied programdata buffer)
  unfolding copy_program Copied
  Untouched-copy_program programdata buffer from_start k from =
      Triple-bind _ _ (Triple-reads (has_range programdata.cell from_start k)) λ _.
        Triple-reads_bind (slice_while programdata.cell buffer.cell from k) _ λ c h bytes e.
          Triple-modify_account programdata.cell (write_range from_start bytes) λ c' a h' e'.
            (Untouched-update c' programdata.cell a h' (ground arith), differ c bytes e)
    where
      differ :
          (c : InvokeContext) (bytes : List ℕ)
          → slice_while programdata.cell buffer.cell from k c ≡ ok bytes
          → programdata.cell ≢ buffer.cell
      differ c bytes e same = ground arith

  module _ (n : ℕ) (sdk : Sdk) (law : IsCheckedAdd sdk) (programdata buffer spill : KeyedAccount)
      (required : ℕ) where
    abbrev pub funds : ℕ
    funds = (start programdata.cell).lamports + (start buffer.cell).lamports

    -- After the spill account has got what is left over.
    record Spilled (c : InvokeContext) : Type 0 where
      lamports_total : total n c.cells ≡ total n start + (funds - required)
      same_accounts : c.keyed_accounts ≡ ok accounts
      buffer_same : (c.cells buffer.cell).lamports ≡ (start buffer.cell).lamports
      programdata_same : (c.cells programdata.cell).lamports ≡ (start programdata.cell).lamports

    record Emptied (c : InvokeContext) : Type 0 where
      lamports_total :
          total n c.cells + (start buffer.cell).lamports ≡ total n start + (funds - required)
      same_accounts : c.keyed_accounts ≡ ok accounts
      programdata_same : (c.cells programdata.cell).lamports ≡ (start programdata.cell).lamports

    spill_step :
        spill.cell < n
        → spill.cell ≢ programdata.cell
        → spill.cell ≢ buffer.cell
        → Triple Untouched
            (modify_account spill.cell (credit sdk (saturating_sub funds required)))
            Spilled
    spill_step below np nb = Triple-modify_account spill.cell _ λ c a h e. record {
      lamports_total = omega (
        arith,
        total-update n c.cells spill.cell a below,
        total-ext n c.cells start h.each,
        credit-lamports sdk (saturating_sub funds required) (c.cells spill.cell) a law e,
      );
      same_accounts = h.same_accounts;
      buffer_same = ground (arith, h.each buffer.cell);
      programdata_same = ground (arith, h.each programdata.cell);
    }

    empty_step :
        buffer.cell < n
        → programdata.cell ≢ buffer.cell
        → Triple Spilled (modify_account buffer.cell (set_lamports 0)) Emptied
    empty_step below ne = Triple-modify_account buffer.cell (set_lamports 0) λ c a h e. record {
      lamports_total =
          ground
            (arith, total-update n c.cells buffer.cell a below, h.lamports_total, h.buffer_same);
      same_accounts = h.same_accounts;
      programdata_same = ground (arith, h.programdata_same);
    }

    fund_step :
        programdata.cell < n
        → required ≤ funds
        → Triple Emptied
            (modify_account programdata.cell (set_lamports required))
            (Holds n (total n start) accounts)
    fund_step below enough =
        Triple-modify_account programdata.cell (set_lamports required) λ c a h e. record {
          lamports_total = ground (
            arith,
            total-update n c.cells programdata.cell a below,
            h.lamports_total,
            h.programdata_same,
          );
          same_accounts = h.same_accounts;
        }

    pub Holds-fund_programdata :
        programdata.cell < n
        → buffer.cell < n
        → spill.cell < n
        → required ≤ funds
        → Triple
            (Copied programdata buffer)
            (fund_programdata sdk programdata buffer spill required)
            (Holds n (total n start) accounts)
    unfolding fund_programdata Copied
    Holds-fund_programdata bp bb bs enough =
        Triple-reads_bind (lamports_while spill.cell programdata.cell) _ λ c h held eh.
          Triple-reads_bind (lamports_while spill.cell buffer.cell) _ λ c' h' brought eb.
            Triple-lift_bind _ _ λ sum es.
              let same : sum ≡ funds =
                ground (arith, h.0.each programdata.cell, h'.0.each buffer.cell) in
              Triple-bind _ _
                (Triple-weaken _
                  (subst
                    (λ s.
                      Triple Untouched
                        (modify_account spill.cell (credit sdk (saturating_sub s required)))
                        Spilled)
                    (sym same) (spill_step bs (λ e. ground arith) (λ e. ground arith)))
                  (λ d hd. hd.0))
                λ _. Triple-bind _ _ (empty_step bb h.1) λ _. fund_step bp enough
