-- ===== src/Loader/Cache/Renewed.antt =====
-- After an Upgrade the new version is what a call of the program runs.
use solana_sdk_sample.Base.{ℕ, ◌+◌, ◌≡◌, sym, ap, subst, ◌∙◌, Bool, some, List, drop, ==_refl}
use solana_sdk_sample.Runtime.Outcome.{ok}
use solana_sdk_sample.Runtime.Account.{Pubkey, Bytes, KeyedAccount, InvokeContext, BpfExecutor}
use solana_sdk_sample.Runtime.Action.Triple.{Triple-strengthen, Triple-weaken}
use solana_sdk_sample.Runtime.Action.At.{At-reads, At-ok}
use solana_sdk_sample.Runtime.Sdk.{Sdk}
use solana_sdk_sample.Runtime.Sdk.Laws.{IsStateCodec}
use solana_sdk_sample.Loader.Executor.{create_executor}
use solana_sdk_sample.Loader.Executor.Made.{IsMadeFrom, create_executor-IsMadeFrom}
use solana_sdk_sample.Loader.Lamports.Whole.{upgrade_accounts-Indices}
use solana_sdk_sample.Loader.Executor.Execute.{execute}
use solana_sdk_sample.Loader.Upgrade.{
  UpgradeAccounts, upgrade_accounts, verify_program, verify_buffer, verify_programdata,
}
use solana_sdk_sample.Loader.Upgrade.Commit.{upgrade}
use solana_sdk_sample.Loader.Upgrade.Whole.{At-executor, upgrade-Upgraded, offsets}
use solana_sdk_sample.Loader.Process.{process_instruction_common}
use solana_sdk_sample.Loader.Process.Closed.{IsCall}
use solana_sdk_sample.Loader.Cache.{Caches, record_upgrade-Caches}
use solana_sdk_sample.Loader.Cache.Called.{call-cached}

-- The executor that an Upgrade has made from the buffer is in the cache.
pub record IsRenewed (sdk : Sdk) (accounts : List KeyedAccount) (first : ℕ) (jit : Bool)
    (c d : InvokeContext) : Type 0 where
  pub u : UpgradeAccounts
  pub found : upgrade_accounts sdk accounts first c ≡ ok u
  pub x : BpfExecutor
  pub made : create_executor sdk (first + 2) 37 jit c ≡ ok x
  pub cached : d.executors u.program.unsigned_key ≡ some x

upgrade-IsRenewed :
    (sdk : Sdk) (accounts : List KeyedAccount) (first : ℕ) (id : Pubkey) (jit : Bool)
    (c d : InvokeContext)
    → upgrade sdk accounts first id jit c ≡ (ok tt, d)
    → IsRenewed sdk accounts first jit c d
unfolding upgrade
upgrade-IsRenewed sdk accounts first id jit c d e =
    At-ok _ (IsRenewed sdk accounts first jit c) c d tt
      (At-reads (upgrade_accounts sdk accounts first) _ λ u eu.
        At-reads (verify_program sdk u id) _ λ _ _. At-reads (verify_buffer sdk u) _ λ l el.
          At-reads (verify_programdata sdk u l) _ λ _ _.
            At-reads (create_executor sdk (first + 2) l.buffer_data_offset jit) _ λ x made.
              At-executor u.program.unsigned_key x _ (
                At-reads (λ d. d.keyed_accounts) _
                  λ again _.
                    Triple-strengthen _
                      (Triple-weaken _
                        (record_upgrade-Caches u.program.unsigned_key x sdk u l again first)
                        (λ f h.
                          subst (Caches u.program.unsigned_key x) (sym h)
                            (rw (==_refl u.program.unsigned_key))))
                      λ f h. record {
                        u = u;
                        found = eu;
                        x = x;
                        made =
                            subst (λ k. create_executor sdk (first + 2) k jit c ≡ ok x)
                              (offsets sdk u l c el).1 made;
                        cached = h;
                      }))
      e

-- A call finds the cache's entry for the program, and the data of its ProgramData account, as the
-- Upgrade has left them.
pub record IsLater (sdk : Sdk) (u : UpgradeAccounts) (first : ℕ)
    (programdata program : KeyedAccount) (d e : InvokeContext) : Type 0 where
  pub same_entry : e.executors u.program.unsigned_key ≡ d.executors u.program.unsigned_key
  pub same_data : (e.cells u.programdata.cell).data_bytes ≡ (d.cells u.programdata.cell).data_bytes
  pub same_account : programdata.cell ≡ u.programdata.cell
  pub call : IsCall sdk first u.program.unsigned_key programdata program e

-- After a successful Upgrade, a call of the program runs the executor that the Upgrade has made from
-- the bytes behind the buffer's 37 bytes of metadata, and not an older one, if the cache's entry for
-- the program and the data of its ProgramData account are still as the Upgrade has left them. Other
-- accounts and entries may have changed.
pub process_instruction_common-upgrade :
    (sdk : Sdk) (accounts : List KeyedAccount) (first : ℕ) (id : Pubkey) (jit : Bool)
    (c d e : InvokeContext) (u : UpgradeAccounts) (at : ℕ) (programdata program : KeyedAccount)
    (instruction_data : Bytes) (use_jit : Bool)
    → IsStateCodec sdk
    → c.keyed_accounts ≡ ok accounts
    → upgrade_accounts sdk accounts first c ≡ ok u
    → upgrade sdk accounts first id jit c ≡ (ok tt, d)
    → IsLater sdk u at programdata program d e
    → (x : BpfExecutor) × IsMadeFrom sdk (drop 37 (c.cells u.buffer.cell).data_bytes) jit c x
      × (process_instruction_common sdk at instruction_data use_jit e
          ≡ execute sdk x (at + 1) instruction_data use_jit e)
process_instruction_common-upgrade sdk accounts first id jit c d e u at programdata program
      instruction_data use_jit codec same found done later =
    let done_to = upgrade-Upgraded sdk accounts first id jit c d codec same done in
    let renewed = upgrade-IsRenewed sdk accounts first id jit c d done in
    let v : done_to.u ≡ u = cc (done_to.found) in
    let w : renewed.u ≡ u = cc (renewed.found) in
    let key = ap (λ (u : UpgradeAccounts). u.program.unsigned_key) (sym w) in
    (
      renewed.x,
      (create_executor-IsMadeFrom sdk jit c renewed.x accounts (first + 2) 37 u.buffer same
          (upgrade_accounts-Indices sdk accounts first c u found).at_buffer renewed.made).1,
      call-cached sdk at u.program.unsigned_key programdata program instruction_data use_jit e _ _
          later.call
          (ap (λ k. sdk.state (e.cells k).data_bytes) later.same_account
            ∙ ap sdk.state later.same_data
            ∙ ap (λ (u : UpgradeAccounts). sdk.state (d.cells u.programdata.cell).data_bytes)
                (sym v)
            ∙ done_to.programmed.state_now)
          renewed.x (later.same_entry ∙ ap d.executors key ∙ renewed.cached),
    )
