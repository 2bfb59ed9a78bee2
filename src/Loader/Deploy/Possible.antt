-- ===== src/Loader/Deploy/Possible.antt =====
-- The parts of DeployWithMaxDataLen whose accounts, instruction and buffer are as they have to be.
use solana_sdk_sample.Base.{
  ℕ, ◌+◌, ◌-◌, ◌≤◌, ◌<◌, ◌≡◌, ◌≢◌, refl, ap, ◌∙◌, Bool, true, false, not, some, List, [], ◌∷◌,
  arith, length, ◌==◌, if◌then◌else◌, ==_refl, u64_bound,
}
use solana_sdk_sample.Runtime.Outcome.{ok}
use solana_sdk_sample.Runtime.Account.{
  Account, Bytes, Cells, update, Pubkey, KeyedAccount, InvokeContext, BpfExecutor,
  reduce_required_deploy_balance,
}
use solana_sdk_sample.Runtime.Action
use solana_sdk_sample.Runtime.Action.{Action, ◌>>=◌, when, reads, lift}
use solana_sdk_sample.Runtime.Action.Steps.{read_step, lift_step}
use solana_sdk_sample.Runtime.Action.Success.{Succeeds}
use solana_sdk_sample.Runtime.Sdk.{Sdk, Seed}
use solana_sdk_sample.Runtime.Sdk.Laws.{IsCheckedAdd, IsStateCodec}
use solana_sdk_sample.Loader.Close.{drain}
use solana_sdk_sample.Loader.Close.Checks.{MayDrain, drained, drain-drained}
use solana_sdk_sample.Loader.Executor.{create_executor}
use solana_sdk_sample.Loader.Deploy.{
  DeployAccounts, Lengths, deploy_accounts, verify_program, verify_buffer, derive_bump,
  create_instruction,
}
use solana_sdk_sample.Loader.Deploy.Commit.{derived_signer, create_programdata}
use solana_sdk_sample.Loader.Deploy.Laws.{MayDeploy}
use solana_sdk_sample.Loader.Deploy.Room.{Ready}

-- The bump seed of the ProgramData account's address.
abbrev pub bump_of : Sdk → DeployAccounts → Pubkey → ℕ
bump_of sdk d id = (sdk.find_program_address (Seed.key d.program.unsigned_key ∷ []) id).1

module _ (sdk : Sdk) (d : DeployAccounts) (id : Pubkey) (max_data_len : ℕ) (c : InvokeContext) where
  abbrev pub checked_lengths : Lengths
  checked_lengths = record {
    buffer_data_offset = 37;
    buffer_data_len = length (c.cells d.buffer.cell).data_bytes - 37;
    programdata_data_offset = 45;
    programdata_len = 45 + max_data_len;
  }

  module _ (allowed : MayDeploy sdk d id max_data_len c) where
    pub program-verified : verify_program sdk d c ≡ ok tt
    unfolding verify_program
    program-verified =
        ground
          (arith, allowed.program_is_new, allowed.program_has_room, allowed.program_rent_exempt)

    pub buffer-verified :
        45 + max_data_len ≤ sdk.max_permitted_data_length
        → 45 + max_data_len < u64_bound
        → verify_buffer sdk d max_data_len c ≡ ok checked_lengths
    unfolding verify_buffer
    buffer-verified permitted bounded = ground (
      arith,
      allowed.buffer_authority,
      allowed.signed,
      allowed.buffer_not_empty,
      allowed.program_fits,
      ==_refl d.authority.unsigned_key,
    )

    pub bump-derived : derive_bump sdk d id ≡ ok (bump_of sdk d id)
    unfolding derive_bump
    bump-derived = rw (allowed.address_is_derived, ==_refl d.programdata.unsigned_key) refl

-- A context with the new executor of the program.
abbrev pub with_new : DeployAccounts → BpfExecutor → InvokeContext → InvokeContext
with_new d x e = record e {
  executors = λ j. if j == d.program.unsigned_key then some x else e.executors j;
}

-- The context from which the ProgramData account is created: the buffer is drained before, or not.
abbrev pub predrained :
    (sdk : Sdk)
    → IsCheckedAdd sdk
    → IsStateCodec sdk
    → DeployAccounts
    → Bool
    → InvokeContext
    → InvokeContext
predrained sdk law codec d true c = drained sdk law codec d.buffer d.payer c
predrained sdk law codec d false c = c

-- DeployWithMaxDataLen can be done: what its checks ask for, an invocation that creates the
-- ProgramData account and leaves the context `e`, and a buffer that compiles.
pub record CanDeploy (sdk : Sdk) (law : IsCheckedAdd sdk) (codec : IsStateCodec sdk)
    (accounts : List KeyedAccount) (first : ℕ) (id : Pubkey) (max_data_len : ℕ) (jit : Bool)
    (d : DeployAccounts) (c e : InvokeContext) : Type 0 where
  pub found : deploy_accounts sdk accounts first c ≡ ok d
  pub allowed : MayDeploy sdk d id max_data_len c
  pub permitted : 45 + max_data_len ≤ sdk.max_permitted_data_length
  pub bounded : 45 + max_data_len < u64_bound
  pub caller : Pubkey
  pub at_caller : c.caller ≡ ok caller
  pub signers : List Pubkey
  pub signs : derived_signer sdk d.program.unsigned_key (bump_of sdk d id) caller ≡ ok signers
  pub created :
      sdk.native_invoke
        (create_instruction sdk d (45 + max_data_len) id)
        signers
        (predrained sdk law codec d (c.is_feature_active reduce_required_deploy_balance) c)
      ≡ (ok tt, e)
  pub space : length (e.cells d.programdata.cell).data_bytes ≡ 45 + max_data_len
  pub compiles : (x : BpfExecutor) × (create_executor sdk (first + 3) 37 jit e ≡ ok x)
  pub drains_before :
      c.is_feature_active reduce_required_deploy_balance ≡ true → MayDrain d.buffer d.payer c
  pub drains_after :
      c.is_feature_active reduce_required_deploy_balance ≡ false → MayDrain d.buffer d.payer e

pub filled : (xs : Bytes) → 1 ≤ length xs → xs ≢ []
filled xs some_byte none = omega (arith, ap length none, some_byte)

update-data :
    (cells : Cells) (k : ℕ) (a : Account)
    → a.data_bytes ≡ (cells k).data_bytes
    → (x : ℕ) → (update cells k a x).data_bytes ≡ (cells x).data_bytes
update-data cells k a same x = ground (arith, at)
  where
    at : k ≡ x → cells k ≡ cells x
    at e = ap cells e

module _ (sdk : Sdk) (law : IsCheckedAdd sdk) (codec : IsStateCodec sdk) (d : DeployAccounts)
    (c : InvokeContext) where
  pub predrained-data :
      (predrain : Bool) (x : ℕ)
      → ((predrained sdk law codec d predrain c).cells x).data_bytes ≡ (c.cells x).data_bytes
  predrained-data true x =
      let payer = c.cells d.payer.cell in
      let paid = record payer { lamports = payer.lamports + (c.cells d.buffer.cell).lamports } in
      let cells = update c.cells d.payer.cell paid in
      update-data cells d.buffer.cell (record (cells d.buffer.cell) { lamports = 0 }) refl x
      ∙ update-data c.cells d.payer.cell paid refl x
  predrained-data false x = refl

  pub predrained-accounts :
      (predrain : Bool) → (predrained sdk law codec d predrain c).keyed_accounts ≡ c.keyed_accounts
  predrained-accounts true = refl
  predrained-accounts false = refl

  -- "Create ProgramData account", when the invocation succeeds.
  module _ (l : Lengths) (bump : ℕ) (id caller : Pubkey) (signers : List Pubkey) (e : InvokeContext)
      (signs : derived_signer sdk d.program.unsigned_key bump caller ≡ ok signers) where
    abbrev invoke : List Pubkey → Action (Unit {0})
    invoke = sdk.native_invoke (create_instruction sdk d l.programdata_len id)

    invokes :
        (start : InvokeContext)
        → start.caller ≡ ok caller
        → invoke signers start ≡ (ok tt, e)
        → (reads (λ x. x.caller) >>= λ k.
              lift (derived_signer sdk d.program.unsigned_key bump k) >>= invoke)
            start
          ≡ (ok tt, e)
    invokes start at_caller run =
        read_step (λ x. x.caller) _ start caller at_caller
        ∙ lift_step _ invoke start signers signs
        ∙ run

    pub creates :
        (predrain : Bool)
        → c.caller ≡ ok caller
        → (predrain ≡ true → MayDrain d.buffer d.payer c)
        → invoke signers (predrained sdk law codec d predrain c) ≡ (ok tt, e)
        → create_programdata sdk d l bump predrain id c ≡ (ok tt, e)
    unfolding create_programdata Action.◌>>=◌
    creates true at_caller may run =
        rw (drain-drained sdk law codec d.buffer d.payer c (may refl))
          (invokes (predrained sdk law codec d true c) at_caller run)
    creates false at_caller may run = invokes c at_caller run

  pub drains_at_end :
      (predrain : Bool) (e f : InvokeContext)
      → Ready d.buffer e f
      → (predrain ≡ false → MayDrain d.buffer d.payer e)
      → Succeeds (when (not predrain) (drain sdk d.buffer d.payer)) f
  unfolding when
  drains_at_end true e f r may = refl
  drains_at_end false e f r may =
      ap (λ x. x.0)
        (drain-drained sdk law codec d.buffer d.payer f record {
          two_accounts = (may refl).two_accounts;
          sum_fits = omega (
            arith,
            (may refl).sum_fits,
            r.same_lamports d.payer.cell,
            r.same_lamports d.buffer.cell,
          );
        })
