-- ===== src/Builders/Process.antt =====
-- What the loader does with the instructions that the builders make.
use solana_sdk_sample.Base.{
  ℕ, ◌+◌, ◌≤◌, ◌≡◌, ◌↔◌, refl, ap, sym, ◌∙◌, Bool, true, false, some, [], ◌∷◌, length,
}
use solana_sdk_sample.Runtime.Outcome.{Outcome, ok}
use solana_sdk_sample.Runtime.Account.{Pubkey, Bytes, KeyedAccount, InvokeContext}
use solana_sdk_sample.Runtime.Sdk.{Sdk}
use solana_sdk_sample.Runtime.Invoke.{resolve}
use solana_sdk_sample.State
use solana_sdk_sample.Instruction
use solana_sdk_sample.Instruction.{Call, UpgradeableLoaderInstruction}
use solana_sdk_sample.Builders
use solana_sdk_sample.Loader.Buffer.Laws.{write_iff}
use solana_sdk_sample.Loader.Process.Runs.{process-runs}
use solana_sdk_sample.Loader.Process.{process_loader_upgradeable_instruction, run_upgradeable}

-- The instructions that this version of the loader reads.
abbrev pub IsRead : UpgradeableLoaderInstruction → Type 0
IsRead (Instruction.extend_program additional_bytes) = ⊥
IsRead Instruction.set_authority_checked = ⊥
IsRead i = Unit

-- The size of a packet, `PACKET_DATA_SIZE`.
abbrev pub packet_size : ℕ
packet_size = 1232

-- `limited_deserialize` reads back what bincode wrote, up to the size of a packet.
pub record IsInstructionCodec (sdk : Sdk) : Type 0 where
  pub deserialize-serialize :
      (i : UpgradeableLoaderInstruction)
      → IsRead i
      → length (sdk.serialize_upgradeable i) ≤ packet_size
      → sdk.deserialize_upgradeable (sdk.serialize_upgradeable i) ≡ ok i

-- The context of an instruction of the upgradeable loader, whose own account comes first.
pub record IsInvoked (sdk : Sdk) (cell_of : Pubkey → ℕ) (call : Call) (loader : KeyedAccount)
    (c : InvokeContext) : Type 0 where
  pub caller_is_program : c.caller ≡ ok call.program_id
  pub given_accounts : c.keyed_accounts ≡ ok (loader ∷ resolve cell_of call.accounts)

-- The loader carries out the instruction that `write` builds, with the signature that it asks for,
-- exactly when the account at the buffer's address is a Buffer with the given authority and the range
-- lies inside its data. The instruction's data is no longer than a packet.
pub process-write :
    (sdk : Sdk) (cell_of : Pubkey → ℕ) (buffer_address authority_address : Pubkey) (offset : ℕ)
    (bytes : Bytes) (loader : KeyedAccount) (jit : Bool) (c : InvokeContext)
    → IsInstructionCodec sdk
    → length (Builders.write sdk buffer_address authority_address offset bytes).data_bytes
      ≤ packet_size
    → IsInvoked sdk cell_of
        (Builders.write sdk buffer_address authority_address offset bytes)
        loader
        c
    → ((process_loader_upgradeable_instruction sdk 1
          (Builders.write sdk buffer_address authority_address offset bytes).data_bytes
          jit
          c).0
        ≡ ok tt)
      ↔ ((sdk.state (c.cells (cell_of buffer_address)).data_bytes
            ≡ ok (State.buffer (some authority_address)))
          × (37 + offset + length bytes ≤ length (c.cells (cell_of buffer_address)).data_bytes))
unfolding Builders.write run_upgradeable
process-write sdk cell_of buffer_address authority_address offset bytes loader jit c codec short h =
    let metas =
      Builders.new buffer_address false ∷ Builders.new_readonly authority_address true ∷ [] in
    let accounts = loader ∷ resolve cell_of metas in
    let runs =
      process-runs sdk (UpgradeableLoaderInstruction.write offset bytes) _
        sdk.bpf_loader_upgradeable_id accounts 1 jit c (codec.deserialize-serialize _ tt short)
        h.caller_is_program h.given_accounts in
    let exact = write_iff sdk accounts 1 offset bytes c _ _ h.given_accounts refl refl in
    (
      λ e.
          let m = exact.0 (ap (λ (r : Outcome (Unit {0}) × InvokeContext). r.0) (sym runs) ∙ e) in
          (m.is_buffer, m.fits),
      λ p.
          ap (λ (r : Outcome (Unit {0}) × InvokeContext). r.0) runs
          ∙ exact.1 (record { is_buffer = p.0; signed = refl; fits = p.1 }),
    )
