-- ===== src/Runtime/Invoke.antt =====
-- How the runtime hands an instruction to the loader: the accounts that it lists, in their order.
use solana_sdk_sample.Base.{ℕ, List, [], ◌∷◌}
use solana_sdk_sample.Runtime.Outcome.{ok}
use solana_sdk_sample.Runtime.Account.{Pubkey, KeyedAccount, InvokeContext}
use solana_sdk_sample.Instruction.{AccountMeta, Call}

-- The runtime resolves the accounts that an instruction lists, in their order; `cell_of` says where
-- an account is. Those that it marks as signers have signed.
abbrev pub resolve : (Pubkey → ℕ) → List AccountMeta → List KeyedAccount
resolve cell_of [] = []
resolve cell_of (m ∷ metas) =
    record {
      is_signer = m.is_signer;
      is_writable = m.is_writable;
      unsigned_key = m.pubkey;
      cell = cell_of m.pubkey;
    }
    ∷ resolve cell_of metas

-- The context of an instruction of the upgradeable loader, whose own account comes first.
abbrev pub invoked : (Pubkey → ℕ) → KeyedAccount → Call → InvokeContext → InvokeContext
invoked cell_of loader call c = record c {
  caller = ok call.program_id;
  keyed_accounts = ok (loader ∷ resolve cell_of call.accounts);
}
