-- ===== src/Loader/Upgrade/Success.antt =====
-- When Upgrade succeeds.
use solana_sdk_sample.Base.{
  ℕ, ◌+◌, ◌-◌, ◌≤◌, ◌≡◌, refl, Bool, true, some, List, arith, length, max, ◌==◌, if◌then◌else◌,
  ==_refl,
}
use solana_sdk_sample.Runtime.Outcome.{ok}
use solana_sdk_sample.Runtime.Account.{
  Pubkey, KeyedAccount, InvokeContext, BpfExecutor, keyed_account_at_index,
}
use solana_sdk_sample.Runtime.Action.Success.{
  Succeeds, Succeeds-lift, Succeeds-reads, Succeeds-bind,
}
use solana_sdk_sample.Runtime.Sdk.{Sdk}
use solana_sdk_sample.Runtime.Sdk.Laws.{IsCheckedAdd, IsStateCodec}
use solana_sdk_sample.State
use solana_sdk_sample.State.{UpgradeableLoaderState}
use solana_sdk_sample.Loader.Deploy.Commit.{add_executor}
use solana_sdk_sample.Loader.Executor.{create_executor}
use solana_sdk_sample.Loader.Upgrade.{
  UpgradeAccounts, UpgradeLengths, upgrade_accounts, verify_program, verify_buffer,
  verify_programdata,
}
use solana_sdk_sample.Loader.Upgrade.Commit.{record_upgrade, upgrade}
use solana_sdk_sample.Loader.Upgrade.Laws.{MayUpgrade}
use solana_sdk_sample.Loader.Lamports.Whole.{upgrade_accounts-Indices}
use solana_sdk_sample.Loader.Upgrade.Room.{Fits, writes_and_pays}

-- Upgrade can be done: what its checks ask for, a buffer that compiles, and room for the program and
-- the lamports.
pub record CanUpgrade (sdk : Sdk) (accounts : List KeyedAccount) (first : ℕ) (id : Pubkey)
    (jit : Bool) (u : UpgradeAccounts) (spill : KeyedAccount) (c : InvokeContext) : Type 0 where
  pub found : upgrade_accounts sdk accounts first c ≡ ok u
  pub at_spill : keyed_account_at_index accounts (first + 3) ≡ ok spill
  pub allowed : MayUpgrade sdk u.programdata u.program u.buffer u.authority id c
  pub program_writable : u.program.is_writable ≡ true
  pub compiles : (x : BpfExecutor) × (create_executor sdk (first + 2) 37 jit c ≡ ok x)
  pub fits :
      Fits u.programdata u.buffer spill
        (max 1 (u.rent.minimum_balance (length (c.cells u.programdata.cell).data_bytes)))
        c
  pub enough :
      max 1 (u.rent.minimum_balance (length (c.cells u.programdata.cell).data_bytes))
      ≤ (c.cells u.programdata.cell).lamports + (c.cells u.buffer.cell).lamports

module _ (sdk : Sdk) (law : IsCheckedAdd sdk) (codec : IsStateCodec sdk)
    (accounts : List KeyedAccount) (first : ℕ) (id : Pubkey) (jit : Bool) (u : UpgradeAccounts)
    (spill : KeyedAccount) (c : InvokeContext)
    (can : CanUpgrade sdk accounts first id jit u spill c) where
  abbrev required : ℕ
  required = max 1 (u.rent.minimum_balance (length (c.cells u.programdata.cell).data_bytes))

  abbrev checked_lengths : UpgradeLengths
  checked_lengths = record {
    buffer_data_offset = 37;
    buffer_data_len = length (c.cells u.buffer.cell).data_bytes - 37;
    programdata_data_offset = 45;
    programdata_balance_required = required;
  }

  program-verified : verify_program sdk u id c ≡ ok tt
  unfolding verify_program
  program-verified = rw (
    can.allowed.program_executable,
    can.program_writable,
    can.allowed.program_owned,
    ==_refl id,
    can.allowed.program_points,
    ==_refl u.programdata.unsigned_key,
  )

  buffer-verified : verify_buffer sdk u c ≡ ok checked_lengths
  unfolding verify_buffer
  buffer-verified =
      ground (arith, can.allowed.buffer_authority, can.allowed.signed, can.allowed.buffer_not_empty)

  programdata-verified : verify_programdata sdk u checked_lengths c ≡ ok tt
  unfolding verify_programdata
  programdata-verified = ground (
    arith, can.allowed.upgrade_authority.1, can.allowed.signed, can.fits.program_fits,
    can.fits.sum_fits, can.enough,
  )

  with_new : BpfExecutor → InvokeContext
  with_new x = record c {
    executors = λ j. if j == u.program.unsigned_key then some x else c.executors j;
  }

  recorded :
      (x : BpfExecutor)
      → Succeeds (record_upgrade sdk u checked_lengths accounts first) (with_new x)
  unfolding record_upgrade with_new
  recorded x =
      let at = upgrade_accounts-Indices sdk accounts first c u can.found in
      Succeeds-lift _ _ _ u.programdata at.at_programdata (
        Succeeds-lift _ _ _ u.buffer at.at_buffer (
          Succeeds-lift _ _ _ spill can.at_spill (
            Succeeds-lift _ _ _ u.authority at.at_authority (
              writes_and_pays sdk law codec u.programdata u.buffer spill required (with_new x) fits
                (State.program_data u.clock.slot (some u.authority.unsigned_key)) (omega arith)))))
    where
      fits : Fits u.programdata u.buffer spill required (with_new x)
      fits = record {
        buffer_apart = can.fits.buffer_apart;
        spill_apart = can.fits.spill_apart;
        spill_not_buffer = can.fits.spill_not_buffer;
        has_metadata = can.fits.has_metadata;
        program_fits = can.fits.program_fits;
        sum_fits = can.fits.sum_fits;
        spill_fits = can.fits.spill_fits;
      }

  -- Upgrade succeeds when the authority of the buffer and of the program signed, the program is
  -- executable, writable and points to the ProgramData account, the buffer compiles and fits into that
  -- account, the lamports are enough for it and for the spill account's balance to stay in `u64`, and
  -- the three accounts that change are three.
  pub upgrade_succeeds :
      c.keyed_accounts ≡ ok accounts → (upgrade sdk accounts first id jit c).0 ≡ ok tt
  unfolding upgrade add_executor with_new
  upgrade_succeeds same =
      let (x, compiled) = can.compiles in
      Succeeds-reads (upgrade_accounts sdk accounts first) _ c u can.found (
        Succeeds-reads (verify_program sdk u id) _ c tt program-verified (
          Succeeds-reads (verify_buffer sdk u) _ c checked_lengths buffer-verified (
            Succeeds-reads (verify_programdata sdk u checked_lengths) _ c tt programdata-verified (
              Succeeds-reads (create_executor sdk (first + 2) 37 jit) _ c x compiled (
                Succeeds-bind (add_executor u.program.unsigned_key x) _ c (with_new x) tt refl (
                  Succeeds-reads (λ d. d.keyed_accounts) _ (with_new x) accounts same
                    (recorded x)))))))
