-- ===== src/Loader/Deploy/Success.antt =====
-- When DeployWithMaxDataLen succeeds.
use solana_sdk_sample.Base.{
  ℕ, ◌+◌, ◌≡◌, ◌≢◌, refl, ap, sym, ◌∙◌, Bool, false, some, List, [], arith, length,
}
use solana_sdk_sample.Runtime.Outcome.{ok}
use solana_sdk_sample.Runtime.Account.{
  Pubkey, KeyedAccount, InvokeContext, BpfExecutor, reduce_required_deploy_balance,
}
use solana_sdk_sample.Runtime.Action.Success.{
  Succeeds, Succeeds-lift, Succeeds-reads, Succeeds-bind,
}
use solana_sdk_sample.Runtime.Sdk.{Sdk}
use solana_sdk_sample.Runtime.Sdk.Laws.{IsCheckedAdd, IsStateCodec}
use solana_sdk_sample.State
use solana_sdk_sample.State.{UpgradeableLoaderState}
use solana_sdk_sample.Loader.Close.Checks.{MayDrain}
use solana_sdk_sample.Loader.Executor.{create_executor}
use solana_sdk_sample.Loader.Deploy.{
  DeployAccounts, Lengths, deploy_accounts, verify_program, verify_buffer, derive_bump,
}
use solana_sdk_sample.Loader.Deploy.Commit.{add_executor, record_program, deploy}
use solana_sdk_sample.Loader.Frozen.{IsCreateAccount}
use solana_sdk_sample.Loader.Frozen.Deploy.{deploy_accounts-Indices}
use solana_sdk_sample.Loader.Deploy.Room.{
  Ready, set_state-Steps, set_executable-Steps, copy_program-Steps,
}
use solana_sdk_sample.Loader.Deploy.Possible.{
  bump_of, checked_lengths, program-verified, buffer-verified, bump-derived, with_new, CanDeploy,
  filled, predrained, predrained-data, predrained-accounts, creates, drains_at_end,
}

module _ (sdk : Sdk) (law : IsCheckedAdd sdk) (codec : IsStateCodec sdk)
    (create : IsCreateAccount sdk) (accounts : List KeyedAccount) (first : ℕ) (id : Pubkey)
    (max_data_len : ℕ) (jit : Bool) (d : DeployAccounts) (c e : InvokeContext)
    (can : CanDeploy sdk law codec accounts first id max_data_len jit d c e) where
  abbrev predrain : Bool
  predrain = c.is_feature_active reduce_required_deploy_balance

  kept :
      (x : ℕ)
      → (c.cells x).data_bytes ≢ []
      → length (e.cells x).data_bytes ≡ length (c.cells x).data_bytes
  kept x filled =
      let before = predrained-data sdk law codec d c predrain x in
      let same =
        create.keeps_data d (45 + max_data_len) id can.signers
          (predrained sdk law codec d predrain c) e x can.created
          (λ empty. filled (sym before ∙ empty)) in
      ap length (same.data_same ∙ before)

  abbrev l : Lengths
  l = checked_lengths sdk d id max_data_len c

  program_apart : d.program.cell ≢ d.buffer.cell
  program_apart same =
      let one = ap (λ k. sdk.state (c.cells k).data_bytes) same in
      ground (arith, one, can.allowed.program_is_new, can.allowed.buffer_authority)

  programdata_apart : c.keyed_accounts ≡ ok accounts → d.programdata.cell ≢ d.buffer.cell
  programdata_apart found same =
      let at = deploy_accounts-Indices sdk accounts first c d can.found in
      let empty =
        create.new_has_no_data d (45 + max_data_len) id can.signers
          (predrained sdk law codec d predrain c) e accounts (first + 1) d.programdata can.created
          (predrained-accounts sdk law codec d c predrain ∙ found) at.at_programdata refl in
      filled (c.cells d.buffer.cell).data_bytes (omega (arith, can.allowed.buffer_not_empty)) (
        sym (ap (λ k. (c.cells k).data_bytes) same)
        ∙ sym (predrained-data sdk law codec d c predrain d.programdata.cell)
        ∙ empty)

  recorded :
      c.keyed_accounts ≡ ok accounts
      → (x : BpfExecutor)
      → Succeeds (record_program sdk d l predrain accounts first) (with_new d x e)
  unfolding record_program
  recorded same x =
      let at = deploy_accounts-Indices sdk accounts first c d can.found in
      let f = with_new d x e in
      let apart = programdata_apart same in
      let room = kept d.program.cell (filled _ (omega (arith, can.allowed.program_has_room))) in
      let size = kept d.buffer.cell (filled _ (omega (arith, can.allowed.buffer_not_empty))) in
      let start : Ready d.buffer f f = record {
        same_sizes = λ x. refl;
        same_lamports = λ x. refl;
        same_buffer = refl;
      } in
      let one =
        set_state-Steps d.buffer f sdk codec d.programdata
          (State.program_data d.clock.slot (some d.authority.unsigned_key)) f start apart
          (omega (arith, can.space)) in
      let two =
        copy_program-Steps d.buffer f d.programdata apart
          (length (c.cells d.buffer.cell).data_bytes) size
          (omega (arith, can.allowed.buffer_not_empty))
          (omega (arith, can.allowed.program_fits, can.space)) one.after one.ready in
      let three =
        set_state-Steps d.buffer f sdk codec d.program (State.program d.programdata.unsigned_key)
          two.after two.ready program_apart (omega (arith, can.allowed.program_has_room, room)) in
      let four = set_executable-Steps d.buffer f d.program three.after three.ready program_apart in
      Succeeds-lift _ _ _ d.payer at.at_payer (
        Succeeds-lift _ _ _ d.programdata at.at_programdata (
          Succeeds-lift _ _ _ d.program at.at_program (
            Succeeds-lift _ _ _ d.buffer at.at_buffer (
              Succeeds-bind _ _ f one.after tt one.runs (
                Succeeds-bind _ _ one.after two.after tt two.runs (
                  Succeeds-bind _ _ two.after three.after tt three.runs (
                    Succeeds-bind _ _ three.after four.after tt four.runs (
                      drains_at_end sdk law codec d c predrain f four.after four.ready
                        may_drain))))))))
    where
      may_drain : predrain ≡ false → MayDrain d.buffer d.payer (with_new d x e)
      may_drain off = record {
        two_accounts = (can.drains_after off).two_accounts;
        sum_fits = (can.drains_after off).sum_fits;
      }

  -- DeployWithMaxDataLen succeeds when the authority of the buffer signed, the buffer has a program
  -- that is no longer than the maximal length, the program account is uninitialised, rent exempt and
  -- large enough, the ProgramData account has the derived address and a permitted size, CreateAccount
  -- is invoked with success and makes it with that size, the buffer compiles after that, and the
  -- payer's account is another one than the buffer's, with a balance that stays in `u64` when the
  -- buffer is drained. The SDK's addition of lamports is checked, and a state fits where its size
  -- does. CreateAccount leaves accounts with data alone, wants a new account without any and gives
  -- the loader its accounts back.
  pub deploy_succeeds :
      c.keyed_accounts ≡ ok accounts → (deploy sdk accounts first id max_data_len jit c).0 ≡ ok tt
  unfolding deploy add_executor
  deploy_succeeds same =
      let (x, compiled) = can.compiles in
      let f = with_new d x e in
      Succeeds-reads (deploy_accounts sdk accounts first) _ c d can.found (
        Succeeds-reads (verify_program sdk d) _ c tt
          (program-verified sdk d id max_data_len c can.allowed)
          (Succeeds-reads (verify_buffer sdk d max_data_len) _ c l
            (buffer-verified sdk d id max_data_len c can.allowed can.permitted can.bounded)
            (Succeeds-lift (derive_bump sdk d id) _ c (bump_of sdk d id)
              (bump-derived sdk d id max_data_len c can.allowed)
              (Succeeds-reads (λ c. ok (c.is_feature_active reduce_required_deploy_balance)) _ c
                predrain refl
                (Succeeds-bind _ _ c e tt
                  (creates sdk law codec d c l (bump_of sdk d id) id can.caller can.signers e
                    can.signs predrain can.at_caller can.drains_before can.created)
                  (Succeeds-reads (create_executor sdk (first + 3) 37 jit) _ e x compiled (
                    Succeeds-bind (add_executor d.program.unsigned_key x) _ e f tt refl (
                      Succeeds-reads (λ d. d.keyed_accounts) _ f accounts
                        (create.keeps_accounts d (45 + max_data_len) id can.signers
                            (predrained sdk law codec d predrain c) e can.created
                          ∙ predrained-accounts sdk law codec d c predrain
                          ∙ same)
                        (recorded same x)))))))))
