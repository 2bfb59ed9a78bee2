-- ===== src/Loader/Upgrade/Whole.antt =====
-- The whole of Upgrade: who may do it, and what it leaves.
use solana_sdk_sample.Base.{
  ℕ, ◌+◌, ◌≡◌, refl, sym, subst, Bool, some, List, arith, ◌==◌, if◌then◌else◌, length, drop,
}
use solana_sdk_sample.Runtime.Outcome.{ok}
use solana_sdk_sample.Runtime.Account.{Account, Pubkey, KeyedAccount, InvokeContext, BpfExecutor}
use solana_sdk_sample.Runtime.Action.{Action, ◌>>=◌}
use solana_sdk_sample.Runtime.Action.Triple.{Assertion, After, Triple, Triple-strengthen}
use solana_sdk_sample.Runtime.Action.At.{At, At-known, At-reads, At-lift, At-ok}
use solana_sdk_sample.Runtime.Sdk.{Sdk}
use solana_sdk_sample.Runtime.Sdk.Laws.{IsStateCodec}
use solana_sdk_sample.State
use solana_sdk_sample.Loader.Executor.{create_executor}
use solana_sdk_sample.Loader.Deploy.Commit.{add_executor}
use solana_sdk_sample.Loader.Upgrade.{
  UpgradeAccounts, UpgradeLengths, upgrade_accounts, verify_program, verify_buffer,
  verify_programdata,
}
use solana_sdk_sample.Loader.Upgrade.Commit.{record_upgrade, upgrade}
use solana_sdk_sample.Loader.Upgrade.Laws.{MayUpgrade, verified, HoldsProgram, Programmed-upgrade}
use solana_sdk_sample.Loader.Lamports.Whole.{upgrade_accounts-Indices}

-- What a successful Upgrade has checked and done.
pub record Upgraded (sdk : Sdk) (accounts : List KeyedAccount) (first : ℕ) (id : Pubkey)
    (c c' : InvokeContext) : Type 0 where
  pub u : UpgradeAccounts
  pub found : upgrade_accounts sdk accounts first c ≡ ok u
  pub allowed : MayUpgrade sdk u.programdata u.program u.buffer u.authority id c
  pub programmed :
      HoldsProgram sdk
        (State.program_data u.clock.slot (some u.authority.unsigned_key))
        (drop 37 (c.cells u.buffer.cell).data_bytes)
        (length (c.cells u.programdata.cell).data_bytes)
        (c'.cells u.programdata.cell).data_bytes

-- The context after `add_executor`.
abbrev pub with_executor : Pubkey → BpfExecutor → InvokeContext → InvokeContext
with_executor k x c = record c { executors = λ j. if j == k then some x else c.executors j }

-- A new executor, and then the rest from the context that has it.
pub At-executor :
    {B : Type 0} {Q : Assertion} {c : InvokeContext} (k : Pubkey) (x : BpfExecutor)
    (rest : Unit {0} → Action B)
    → Triple (At (with_executor k x c)) (rest tt) Q
    → Triple (At c) (add_executor k x >>= rest) Q
unfolding add_executor ◌>>=◌
At-executor {Q = Q} {c = c} k x rest t = record {
  at = λ d h.
      subst (λ (d : InvokeContext). After Q (rest tt (with_executor k x d))) (sym h) (t.at _ refl);
}

pub offsets :
    (sdk : Sdk) (u : UpgradeAccounts) (l : UpgradeLengths) (c : InvokeContext)
    → verify_buffer sdk u c ≡ ok l
    → (l.programdata_data_offset ≡ 45) × (l.buffer_data_offset ≡ 37)
unfolding verify_buffer
offsets sdk u l c e = (ground arith, ground arith)

module _ (sdk : Sdk) (codec : IsStateCodec sdk) (accounts : List KeyedAccount) (first : ℕ)
    (id : Pubkey) (c : InvokeContext) (u : UpgradeAccounts) (l : UpgradeLengths)
    (eu : upgrade_accounts sdk accounts first c ≡ ok u)
    (allowed : MayUpgrade sdk u.programdata u.program u.buffer u.authority id c)
    (at_offsets : (l.programdata_data_offset ≡ 45) × (l.buffer_data_offset ≡ 37)) where
  record_upgrade-Upgraded :
      (d : InvokeContext)
      → d.cells ≡ c.cells
      → Triple (At d) (record_upgrade sdk u l accounts first) (Upgraded sdk accounts first id c)
  unfolding record_upgrade
  record_upgrade-Upgraded d same =
      let at = upgrade_accounts-Indices sdk accounts first c u eu in
      At-known _ _ u.programdata at.at_programdata (
        At-known _ _ u.buffer at.at_buffer (
          At-lift _ _ λ spill _. At-known _ _ u.authority at.at_authority (
            Triple-strengthen _
              (Programmed-upgrade sdk codec _ (omega arith) u.programdata u.buffer d spill
                l.programdata_balance_required l.buffer_data_len l.programdata_data_offset
                l.buffer_data_offset at_offsets.0 at_offsets.1)
              λ e h. record { u = u; found = eu; allowed = allowed; programmed = from_start e h })))
    where
      from_start :
          (e : InvokeContext)
          → HoldsProgram sdk
              (State.program_data u.clock.slot (some u.authority.unsigned_key))
              (drop 37 (d.cells u.buffer.cell).data_bytes)
              (length (d.cells u.programdata.cell).data_bytes)
              (e.cells u.programdata.cell).data_bytes
          → HoldsProgram sdk
              (State.program_data u.clock.slot (some u.authority.unsigned_key))
              (drop 37 (c.cells u.buffer.cell).data_bytes)
              (length (c.cells u.programdata.cell).data_bytes)
              (e.cells u.programdata.cell).data_bytes
      from_start e h =
          subst
            (λ (cells : ℕ → Account).
              HoldsProgram sdk (State.program_data u.clock.slot (some u.authority.unsigned_key))
                (drop 37 (cells u.buffer.cell).data_bytes)
                (length (cells u.programdata.cell).data_bytes)
                (e.cells u.programdata.cell).data_bytes)
            same h

-- A successful Upgrade was signed by the account that is the authority of both the buffer and the
-- ProgramData account, on a program that is executable, owned by the loader and points to that
-- ProgramData account. It leaves the ProgramData account with the clock's slot and the same
-- authority, the buffer's program bits, and zeros behind them, at the same length.
pub upgrade-Upgraded :
    (sdk : Sdk) (accounts : List KeyedAccount) (first : ℕ) (id : Pubkey) (jit : Bool)
    (c c' : InvokeContext)
    → IsStateCodec sdk
    → c.keyed_accounts ≡ ok accounts
    → upgrade sdk accounts first id jit c ≡ (ok tt, c')
    → Upgraded sdk accounts first id c c'
unfolding upgrade
upgrade-Upgraded sdk accounts first id jit c c' codec same e =
    At-ok _ (Upgraded sdk accounts first id c) c c' tt
      (At-reads (upgrade_accounts sdk accounts first) _ λ u eu.
        At-reads (verify_program sdk u id) _ λ _ ep. At-reads (verify_buffer sdk u) _ λ l el.
          At-reads (verify_programdata sdk u l) _ λ _ ev.
            At-reads (create_executor sdk (first + 2) l.buffer_data_offset jit) _ λ x _.
              At-executor u.program.unsigned_key x _ (
                At-reads (λ d. d.keyed_accounts) _
                  λ found ef.
                    subst
                      (λ found.
                        Triple (At (with_executor u.program.unsigned_key x c))
                          (record_upgrade sdk u l found first) (Upgraded sdk accounts first id c))
                      (cc (same, ef))
                      (record_upgrade-Upgraded sdk codec accounts first id c u l eu
                        (verified sdk u l id c ep el ev) (offsets sdk u l c el)
                        (with_executor u.program.unsigned_key x c) refl)))
      e
