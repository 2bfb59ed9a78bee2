-- ===== src/Client/Deploy.antt =====
-- The whole deployment: what is on the chain after it ends without an error.
use solana_sdk_sample.Base.{
  ℕ, ◌^◌, ◌≤◌, ◌<◌, ◌≡◌, refl, ap, sym, ◌∙◌, Bool, true, false, Option, none, some, List, [], ◌∷◌,
  arith, length, take, drop, take-take, length-take, if◌then◌else◌,
}
use mathlib.Core.Option
use solana_sdk_sample.Runtime.Outcome.{Outcome, ok, err, panic}
use solana_sdk_sample.Runtime.Account.{Account, Bytes, Pubkey, KeyedAccount, InvokeContext}
use solana_sdk_sample.Runtime.Invoke.{resolve}
use solana_sdk_sample.Runtime.Sdk.{Sdk}
use solana_sdk_sample.Runtime.Sdk.Laws.{IsStateCodec}
use solana_sdk_sample.State
use solana_sdk_sample.Instruction
use solana_sdk_sample.Instruction.{Call, UpgradeableLoaderInstruction}
use solana_sdk_sample.Loader.Frozen.{IsCreateAccount}
use solana_sdk_sample.Loader.Frozen.Deploy.{DeployIndices, deploy_accounts-Indices}
use solana_sdk_sample.Loader.Deploy.{DeployAccounts}
use solana_sdk_sample.Loader.Deploy.Commit.{deploy}
use solana_sdk_sample.Loader.Deploy.Recorded.{Recorded}
use solana_sdk_sample.Loader.Deploy.Whole.{Deployed, deploy-Deployed}
use solana_sdk_sample.Loader.Process.{run_upgradeable}
use solana_sdk_sample.Loader.Process.Runs.{process-runs}
use solana_sdk_sample.Loader.Buffer.Laws.{Written}
use solana_sdk_sample.Client.{
  Network, Attempt, lost, landed, IsHonest, settle, invoke, send_and_confirm, send_once,
  buffer_size, deploy_program, deploy_instruction, program_data_address,
  encode_deploy_with_max_data_len_instruction,
}
use solana_sdk_sample.Client.Layout.{IsBincode, layout_deploy-encode_lem}
use solana_sdk_sample.Client.Upload.Rounds.{upload-Written}

-- The program is on the chain, under the payer's authority: its account is executable and points to
-- the ProgramData account, which has the program's bytes behind its metadata.
pub record Shipped (sdk : Sdk) (cell_of : Pubkey → ℕ) (payer program_account programdata : Pubkey)
    (program : Bytes) (e : InvokeContext) : Type 0 where
  pub slot : ℕ
  pub program_state :
      sdk.state (e.cells (cell_of program_account)).data_bytes ≡ ok (State.program programdata)
  pub program_executable : (e.cells (cell_of program_account)).executable ≡ true
  pub programdata_state :
      sdk.state (e.cells (cell_of programdata)).data_bytes
      ≡ ok (State.program_data slot (some payer))
  pub programdata_bits :
      take (length program) (drop 45 (e.cells (cell_of programdata)).data_bytes) ≡ program

module _ (sdk : Sdk) (cell_of : Pubkey → ℕ) (loader : KeyedAccount) (jit : Bool)
    (buffer payer program_account : Pubkey) where
  abbrev address : Pubkey
  address = program_data_address sdk cell_of loader jit buffer payer program_account

  abbrev call : ℕ → Call
  call size = deploy_instruction sdk cell_of loader jit buffer payer program_account size

  abbrev accounts : List KeyedAccount
  accounts =
      loader
      ∷ resolve cell_of (
          record { pubkey = payer; is_signer = true; is_writable = true }
          ∷ record { pubkey = address; is_signer = false; is_writable = true }
          ∷ record { pubkey = program_account; is_signer = false; is_writable = true }
          ∷ record { pubkey = buffer; is_signer = false; is_writable = true }
          ∷ record { pubkey = sdk.rent_id; is_signer = false; is_writable = false }
          ∷ record { pubkey = sdk.clock_id; is_signer = false; is_writable = false }
          ∷ record { pubkey = sdk.system_program_id; is_signer = false; is_writable = false }
          ∷ record { pubkey = payer; is_signer = true; is_writable = false }
          ∷ [])

  abbrev given : InvokeContext → InvokeContext
  given c = record c { caller = ok sdk.bpf_loader_upgradeable_id; keyed_accounts = ok accounts }

  invoke-deploy :
      (size : ℕ) (c : InvokeContext)
      → IsBincode sdk
      → size < 2 ^ 64
      → invoke sdk cell_of loader jit (call size) c
        ≡ deploy sdk accounts 1 sdk.bpf_loader_upgradeable_id size jit (given c)
  unfolding deploy_instruction run_upgradeable
  invoke-deploy size c bincode small =
      process-runs sdk (Instruction.deploy_with_max_data_len size)
        (encode_deploy_with_max_data_len_instruction size) sdk.bpf_loader_upgradeable_id accounts 1
        jit (given c) (bincode.reads_deploy _ size (layout_deploy-encode_lem size small)) refl refl

  settled :
      (r : Outcome (Unit {0}) × InvokeContext) (told_done : Bool) (c e : InvokeContext)
      → (let (done, d) = settle r told_done false c in if done then some d else none) ≡ some e
      → r ≡ (ok tt, e)
  settled (ok tt, d) true c e h =
      ap (λ (x : Option InvokeContext). (ok tt, elim x [ none ↦ d | some y ↦ y ])) h
  settled (ok tt, d) false c e h = cc
  settled (err x, d) told_done c e h = cc
  settled (panic, d) told_done c e h = cc

  send_once-invoke :
      (attempt : Attempt) (call : Call) (c e : InvokeContext)
      → IsHonest attempt
      → send_once sdk cell_of loader jit buffer payer attempt call c ≡ some e
      → invoke sdk cell_of loader jit call c ≡ (ok tt, e)
  unfolding send_once send_and_confirm
  send_once-invoke (lost told) call c e honest h = ground (arith, honest)
  send_once-invoke (landed told_done true) call c e honest h = cc
  send_once-invoke (landed told_done false) call c e honest h =
      settled (invoke sdk cell_of loader jit call c) told_done c e h

  same_entry :
      (a b : KeyedAccount)
      → ◌≡◌ {A = Outcome KeyedAccount} (ok a) (ok b)
      → (a.cell ≡ b.cell) × (a.unsigned_key ≡ b.unsigned_key)
  same_entry a b e =
      let same : a ≡ b = cc in
      (ap (λ (x : KeyedAccount). x.cell) same, ap (λ (x : KeyedAccount). x.unsigned_key) same)

  -- The accounts that the handler finds are the ones that the client lists.
  Recorded-Shipped :
      (d : DeployAccounts) (program bits : Bytes) (e : InvokeContext)
      → DeployIndices accounts 1 d
      → length program ≤ length bits
      → take (length program) bits ≡ program
      → Recorded sdk d bits e
      → Shipped sdk cell_of payer program_account address program e
  Recorded-Shipped d program bits e at le prefix r =
      let (program_cell, program_key) = same_entry _ _ at.at_program in
      let (data_cell, data_key) = same_entry _ _ at.at_programdata in
      let (authority_cell, authority_key) = same_entry _ _ at.at_authority in
      let program_same = ap e.cells program_cell in
      let data_same = ap e.cells data_cell in
      record {
        slot = d.clock.slot;
        program_state =
            ap (λ (a : Account). sdk.state a.data_bytes) program_same
            ∙ r.program_state
            ∙ ap (λ k. ok (State.program k)) (sym data_key);
        program_executable = ap (λ (a : Account). a.executable) program_same ∙ r.program_executable;
        programdata_state =
            ap (λ (a : Account). sdk.state a.data_bytes) data_same
            ∙ r.programdata_state
            ∙ ap (λ k. ok (State.program_data d.clock.slot (some k))) (sym authority_key);
        programdata_bits =
            ap (λ (a : Account). take (length program) (drop 45 a.data_bytes)) data_same
            ∙ sym (take-take (length program) (length bits) _ le)
            ∙ ap (take (length program)) r.programdata_bits
            ∙ prefix;
      }

  buffer_size_lt : (n : ℕ) → n < 2 ^ 32 → buffer_size n < 2 ^ 64
  unfolding buffer_size
  buffer_size_lt n h = omega arith

  -- A buffer that the program was written to, deployed.
  Deployed-Shipped :
      (program : Bytes) (size : ℕ) (c c₁ e : InvokeContext)
      → Written sdk 37 program (cell_of buffer) c c₁
      → Deployed sdk accounts 1 sdk.bpf_loader_upgradeable_id size (given c₁) e
      → Shipped sdk cell_of payer program_account address program e
  Deployed-Shipped program size c c₁ e w h =
      let at = deploy_accounts-Indices sdk accounts 1 (given c₁) h.d h.found in
      let (buffer_cell, buffer_key) = same_entry _ _ at.at_buffer in
      let bits : Bytes = drop 37 (c₁.cells h.d.buffer.cell).data_bytes in
      let prefix : take (length program) bits ≡ program =
        ap (λ x. take (length program) (drop 37 (c₁.cells x).data_bytes)) (sym buffer_cell)
        ∙ w.range_written in
      Recorded-Shipped h.d program bits e at
        (omega (arith, ap length prefix, length-take (length program) bits)) prefix h.recorded

  -- A deployment that ends without an error leaves the program on the chain under the payer's
  -- authority: its account is executable and points to its ProgramData account, which has the
  -- program's bytes, if no attempt to send a chunk or DeployWithMaxDataLen is reported as a success but
  -- one whose instruction has succeeded; other attempts may be lost, reported as errors although they
  -- took effect, or sent again. The program is shorter than 2 ^ 32 bytes, the loader reads bincode's layouts, and the system
  -- program's CreateAccount leaves accounts with data alone and wants a new account without any.
  pub deploy_program-Shipped :
      (network : Network) (program : Bytes) (c e : InvokeContext)
      → IsStateCodec sdk
      → IsBincode sdk
      → IsCreateAccount sdk
      → length program < 2 ^ 32
      → ((i k : ℕ) → IsHonest (network.chunk i k))
      → IsHonest network.deploy
      → deploy_program sdk cell_of loader jit buffer payer program_account network program c
        ≡ some e
      → Shipped sdk cell_of payer program_account
          (program_data_address sdk cell_of loader jit buffer payer program_account)
          program
          e
  unfolding deploy_program
  deploy_program-Shipped network program c e codec bincode create small honest deployed_honest h =
      let (c₁, initialized, more) = (Option.bind-eq-some_iff _ _).0 h in
      let (c₂, uploaded, deployed) = (Option.bind-eq-some_iff _ _).0 more in
      let size = buffer_size (length program) in
      Deployed-Shipped program size c₁ c₂ e
        (upload-Written sdk cell_of loader jit buffer payer network program c₁ c₂ codec bincode
          small honest uploaded)
        (deploy-Deployed sdk accounts 1 sdk.bpf_loader_upgradeable_id size jit (given c₂) e codec
          create refl
          (sym (invoke-deploy size c₂ bincode (buffer_size_lt (length program) small))
            ∙ send_once-invoke network.deploy (call size) c₂ e deployed_honest deployed))
