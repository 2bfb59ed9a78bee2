-- ===== src/Loader/Frozen/Steps.antt =====
-- A fixed account under the actions that the handlers are made of.
use solana_sdk_sample.Base.{ℕ, ◌≡◌, ◌≢◌, ap, subst, true, false, none, some, Option, List, arith}
use solana_sdk_sample.Runtime.Outcome.{Outcome, ok}
use solana_sdk_sample.Runtime.Account.{Account, Pubkey, KeyedAccount, InvokeContext, BpfExecutor}
use solana_sdk_sample.Runtime.Action.{lamports_while, modify_account}
use solana_sdk_sample.Runtime.Action.Triple.{
  Keeps, Triple-reads, Triple-reads_bind, Triple-bind, Triple-modify_account,
}
use solana_sdk_sample.Runtime.Sdk.{Sdk}
use solana_sdk_sample.Runtime.Sdk.Laws.{IsCheckedAdd}
use solana_sdk_sample.State
use solana_sdk_sample.State.{UpgradeableLoaderState}
use solana_sdk_sample.Loader.Accounts.{
  check_authority, set_lamports, write_range, has_range, slice_while, state_of, credit,
}
use solana_sdk_sample.Loader.Buffer.{check_buffer}
use solana_sdk_sample.Loader.Authority.{new_state}
use solana_sdk_sample.Loader.Close.{drain}
use solana_sdk_sample.Loader.Deploy.{match_buffer_authority}
use solana_sdk_sample.Loader.Deploy.Commit.{add_executor, copy_program}
use solana_sdk_sample.Loader.Lamports.Steps.{credit-lamports}
use solana_sdk_sample.Loader.Frozen.{is_fixed, Preserved}

-- The checks of the handlers refuse the state of a fixed account.
pub check_authority-none : (a : KeyedAccount) → check_authority none a ≢ ok tt
unfolding check_authority
check_authority-none a e = cc

pub check_buffer-refuses :
    (s : UpgradeableLoaderState) (a : KeyedAccount) → check_buffer s a ≡ ok tt → is_fixed s ≡ false
unfolding check_authority
check_buffer-refuses s a e = ground arith

pub match_buffer_authority-refuses :
    (s : UpgradeableLoaderState) (a : KeyedAccount)
    → match_buffer_authority s a ≡ ok tt
    → is_fixed s ≡ false
match_buffer_authority-refuses s a e = ground arith

pub new_state-refuses :
    (s t : UpgradeableLoaderState) (a : KeyedAccount) (o : Option Pubkey)
    → new_state s a o ≡ ok t
    → is_fixed s ≡ false
unfolding new_state
new_state-refuses (State.buffer none) t a none e = cc
new_state-refuses (State.buffer none) t a (some k) e = cc
new_state-refuses (State.program_data slot none) t a o e = cc
new_state-refuses s t a o e = ground arith

module _ (x : ℕ) (before : Account) (accounts : List KeyedAccount) where
  pub record Frozen (c : InvokeContext) : Type 0 where
    pub preserved : Preserved before (c.cells x)
    pub same_accounts : c.keyed_accounts ≡ ok accounts

  pub Frozen-modify_ne :
      (cell : ℕ) (f : Account → Outcome Account) → cell ≢ x → Keeps Frozen (modify_account cell f)
  Frozen-modify_ne cell f ne =
      Triple-modify_account cell f λ c a h e. record {
        preserved = ground (arith, h.preserved);
        same_accounts = h.same_accounts;
      }

  pub Frozen-add_executor : (k : Pubkey) (e : BpfExecutor) → Keeps Frozen (add_executor k e)
  unfolding add_executor
  Frozen-add_executor k e = record {
    at = λ c h. record { preserved = h.preserved; same_accounts = h.same_accounts };
  }

  pub Frozen-copy_program :
      (programdata buffer : KeyedAccount) (start k from : ℕ)
      → programdata.cell ≢ x
      → Keeps Frozen (copy_program programdata start k buffer from)
  unfolding copy_program
  Frozen-copy_program programdata buffer start k from ne =
      Triple-bind _ _ (Triple-reads (has_range programdata.cell start k)) λ _.
        Triple-bind _ _ (Triple-reads (slice_while programdata.cell buffer.cell from k))
          λ bytes. Frozen-modify_ne programdata.cell (write_range start bytes) ne

  module _ (sdk : Sdk) (law : IsCheckedAdd sdk) where
    -- Lamports that come in do no harm.
    pub Frozen-credit : (cell amount : ℕ) → Keeps Frozen (modify_account cell (credit sdk amount))
    Frozen-credit cell amount = Triple-modify_account cell (credit sdk amount) λ c a h e. record {
      preserved =
          ground (arith, h.preserved, credit-lamports sdk amount (c.cells cell) a law e, at_cell c);
      same_accounts = h.same_accounts;
    }
      where
        at_cell : (c : InvokeContext) → cell ≡ x → c.cells cell ≡ c.cells x
        at_cell c e = ap c.cells e

    pub Frozen-drain :
        (source recipient : KeyedAccount)
        → source.cell ≢ x
        → Keeps Frozen (drain sdk source recipient)
    unfolding drain
    Frozen-drain source recipient ne =
        Triple-reads_bind (lamports_while recipient.cell source.cell) _ λ c h amount _.
          Triple-bind _ _ (Frozen-credit recipient.cell amount)
            λ _. Frozen-modify_ne source.cell (set_lamports 0) ne

  -- An account whose state has an authority, or none to have, is another one.
  pub other_cell :
      (sdk : Sdk) (s t : UpgradeableLoaderState) (a : KeyedAccount) (c : InvokeContext)
      → sdk.state before.data_bytes ≡ ok s
      → is_fixed s ≡ true
      → Frozen c
      → state_of sdk a c ≡ ok t
      → is_fixed t ≡ false
      → a.cell ≢ x
  other_cell sdk s t a c es frozen h et other same =
      cc (subst (λ y. sdk.state (c.cells y).data_bytes ≡ ok t) same et, h.preserved.data_same)
