-- ===== src/Tests/DemoSdk.antt =====
-- A stand-in for the SDK, and that it satisfies what the theorems ask of the SDK.
use solana_sdk_sample.Base.{
  ℕ, ◌+◌, ◌≤◌, ◌≡◌, refl, ap, true, false, some, [], ◌∷◌, arith, ◌==◌, leb, u64_bound, length,
  if◌then◌else◌,
}
use solana_sdk_sample.Runtime.Outcome.{
  Outcome, ok, err, arithmetic_overflow, invalid_instruction_data, other,
}
use solana_sdk_sample.Runtime.Account.{Account, Bytes, Pubkey}
use solana_sdk_sample.Runtime.Sdk.{Sdk, Rent, Clock, Seed, VmResult}
use solana_sdk_sample.Runtime.Sdk
use solana_sdk_sample.Runtime.Sdk.Laws.{IsCheckedAdd, IsStateCodec, variant_index}
use solana_sdk_sample.Instruction
use solana_sdk_sample.Instruction.{
  AccountMeta, UpgradeableLoaderInstruction, LoaderInstruction, Call,
}
use solana_sdk_sample.Builders.Laws.{IsTagged}
use solana_sdk_sample.Builders.Process.{IsInstructionCodec, IsRead}
use solana_sdk_sample.Loader.Lamports.{IsBalanced}
use solana_sdk_sample.Loader.Frozen.{IsCreateAccount, Preserved}
use solana_sdk_sample.Loader.Deploy.{create_instruction}
use solana_sdk_sample.Tests.System.{
  run_create, run_create-keeps, run_create-keyed_accounts, run_create-new, run_create-total,
}
use solana_sdk_sample.Tests.Codec.{
  demo_state, demo_set_state, state-set_lem, length-set_lem, drop-set_lem, set_fits_lem,
  state-take_lem,
}

abbrev serialize : UpgradeableLoaderInstruction → Bytes
serialize Instruction.initialize_buffer = 0 ∷ []
serialize (UpgradeableLoaderInstruction.write offset bytes) = 1 ∷ offset ∷ bytes
serialize (Instruction.deploy_with_max_data_len n) = 2 ∷ n ∷ []
serialize Instruction.upgrade = 3 ∷ []
serialize Instruction.set_authority = 4 ∷ []
serialize Instruction.close = 5 ∷ []
serialize (Instruction.extend_program n) = 6 ∷ n ∷ []
serialize Instruction.set_authority_checked = 7 ∷ []

abbrev by_tag : ℕ → Bytes → Outcome UpgradeableLoaderInstruction
by_tag t [] =
    if t == 0
    then ok Instruction.initialize_buffer
    else if t == 3
    then ok Instruction.upgrade
    else if t == 4
    then ok Instruction.set_authority
    else if t == 5
    then ok Instruction.close
    else if t == 7
    then ok Instruction.set_authority_checked
    else err invalid_instruction_data
by_tag t (x ∷ rest) =
    if t == 1
    then ok (UpgradeableLoaderInstruction.write x rest)
    else if t == 2
    then ok (Instruction.deploy_with_max_data_len x)
    else if t == 6
    then ok (Instruction.extend_program x)
    else err invalid_instruction_data

abbrev deserialize : Bytes → Outcome UpgradeableLoaderInstruction
deserialize [] = err invalid_instruction_data
deserialize (t ∷ rest) = by_tag t rest

abbrev signer_meta : Pubkey → AccountMeta
signer_meta key = record { pubkey = key; is_signer = true; is_writable = true }

abbrev pub demo_sdk : Sdk
demo_sdk = record {
  bpf_loader_id = 2;
  bpf_loader_deprecated_id = 1;
  bpf_loader_upgradeable_id = 3;
  system_program_id = 0;
  rent_id = 4;
  clock_id = 5;
  heap_length = 32768;
  max_permitted_data_length = 10485760;
  log_enabled_trace = false;
  serialize_upgradeable = serialize;
  deserialize_upgradeable = deserialize;
  deserialize_loader = λ d. err invalid_instruction_data;
  state = demo_state;
  set_state = demo_set_state;
  checked_add_lamports =
      λ a b. if leb u64_bound (a + b) then err arithmetic_overflow else ok (a + b);
  rent_from_keyed_account = λ k d. ok (record { minimum_balance = λ n. n });
  clock_from_keyed_account = λ k d. ok (record { slot = 50 });
  find_program_address = λ seeds k. (100 + length seeds, 255);
  create_program_address = λ seeds k. ok (100 + length seeds);
  create_account = λ from to lamports space owner. record {
    program_id = 0;
    accounts = signer_meta from ∷ signer_meta to ∷ [];
    data_bytes = lamports ∷ space ∷ owner ∷ [];
  };
  native_invoke = λ call signers c. run_create call.accounts call.data_bytes c;
  register_syscalls = λ c. some 1;
  from_elf = λ bytes config registry. some 1;
  get_text_bytes = λ e. [];
  verifier_check = λ bytes config. true;
  jit_compile = λ e. some e;
  consume = λ remaining amount. 0;
  new_vm = λ e heap bytes. some 1;
  bind_syscall_context_objects = λ k vm lens. some 1;
  execute_program = λ jit vm bytes c. ((Sdk.status 0, bytes), c);
  error_of_status = other;
  serialize_parameters = λ l p accounts d cells. ok ([], []);
  deserialize_parameters = λ l accounts bytes lens realloc cells. (ok tt, cells);
}

pub demo_sdk-IsCheckedAdd : IsCheckedAdd demo_sdk
demo_sdk-IsCheckedAdd = record { fits = λ a b h. ground arith; overflows = λ a b h. ground arith }

pub demo_sdk-IsStateCodec : IsStateCodec demo_sdk
demo_sdk-IsStateCodec = record {
  state-set_state = state-set_lem;
  length-set_state = length-set_lem;
  drop-set_state = drop-set_lem;
  set_state_fits = set_fits_lem;
  not_empty = λ s e. cc;
  state-take = state-take_lem;
}

pub demo_sdk-IsTagged : IsTagged demo_sdk
demo_sdk-IsTagged = record { tagged = tagged }
  where
    tagged :
        (i : UpgradeableLoaderInstruction) → (rest : Bytes) × (serialize i ≡ variant_index i ∷ rest)
    tagged Instruction.initialize_buffer = ([], refl)
    tagged (UpgradeableLoaderInstruction.write offset bytes) = (offset ∷ bytes, refl)
    tagged (Instruction.deploy_with_max_data_len n) = (n ∷ [], refl)
    tagged Instruction.upgrade = ([], refl)
    tagged Instruction.set_authority = ([], refl)
    tagged Instruction.close = ([], refl)
    tagged (Instruction.extend_program n) = (n ∷ [], refl)
    tagged Instruction.set_authority_checked = ([], refl)

pub demo_sdk-IsBalanced : IsBalanced demo_sdk
demo_sdk-IsBalanced = record {
  keeps_total = λ call signers c c' accounts n given below e.
      run_create-total call.accounts call.data_bytes c c' accounts n e given below;
  keeps_accounts =
      λ call signers c c' e. run_create-keyed_accounts call.accounts call.data_bytes c c' e;
}

same-Preserved : (a b : Account) → b ≡ a → Preserved a b
same-Preserved a b e = record {
  data_same = ap (λ (x : Account). x.data_bytes) e;
  owner_same = ap (λ (x : Account). x.owner) e;
  executable_same = ap (λ (x : Account). x.executable) e;
  lamports_le = omega (arith, ap (λ (x : Account). x.lamports) e);
}

pub demo_sdk-IsCreateAccount : IsCreateAccount demo_sdk
unfolding create_instruction
demo_sdk-IsCreateAccount = record {
  keeps_data = λ d len id signers c c' x e h.
      same-Preserved (c.cells x) (c'.cells x) (run_create-keeps _ _ c c' x e h);
  new_has_no_data = λ d len id signers c c' accounts i a e given at same.
      run_create-new (signer_meta d.payer.unsigned_key) (signer_meta d.programdata.unsigned_key)
        (record { pubkey = d.buffer.unsigned_key; is_signer = false; is_writable = true } ∷ [])
        (create_instruction demo_sdk d len id).data_bytes c c' accounts i a e given at same;
  keeps_accounts = λ d len id signers c c' e. run_create-keyed_accounts _ _ c c' e;
}

pub demo_sdk-IsInstructionCodec : IsInstructionCodec demo_sdk
demo_sdk-IsInstructionCodec = record { deserialize-serialize = deserialize-serialize }
  where
    deserialize-serialize :
        (i : UpgradeableLoaderInstruction)
        → IsRead i
        → length (serialize i) ≤ 1232
        → deserialize (serialize i) ≡ ok i
    deserialize-serialize Instruction.initialize_buffer r short = refl
    deserialize-serialize (UpgradeableLoaderInstruction.write offset bytes) r short = refl
    deserialize-serialize (Instruction.deploy_with_max_data_len n) r short = refl
    deserialize-serialize Instruction.upgrade r short = refl
    deserialize-serialize Instruction.set_authority r short = refl
    deserialize-serialize Instruction.close r short = refl
    deserialize-serialize (Instruction.extend_program n) r short = absurd r
    deserialize-serialize Instruction.set_authority_checked r short = absurd r
