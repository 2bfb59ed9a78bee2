-- ===== src/Runtime/Account.antt =====
-- Accounts, keyed accounts and the invoke context, with the parts that the loader uses.
-- An `Rc<RefCell<AccountSharedData>>` is the number of a cell, so two keyed accounts may name one
-- account. A public key is the number that its 32 bytes stand for, and data are bytes.
use solana_sdk_sample.Base.{
  ℕ, ◌≡◌, ◌≢◌, Bool, Option, none, some, List, ◌==◌, get_elem?, ==_refl, ==_ne, if◌then◌else◌,
}
use solana_sdk_sample.Runtime.Outcome.{Outcome, ok, err, not_enough_account_keys}

abbrev pub Pubkey : Type 0
Pubkey = ℕ

abbrev pub Bytes : Type 0
Bytes = List ℕ

pub record Account : Type 0 where
  pub lamports : ℕ
  pub data_bytes : Bytes
  pub owner : Pubkey
  pub executable : Bool

abbrev pub Cells : Type 0
Cells = ℕ → Account

abbrev pub update : Cells → ℕ → Account → Cells
update cells c a d = if c == d then a else cells d

pub record KeyedAccount : Type 0 where
  pub is_signer : Bool
  pub is_writable : Bool
  pub unsigned_key : Pubkey
  pub cell : ℕ

-- `keyed_account_at_index`
abbrev pub keyed_account_at_index : List KeyedAccount → ℕ → Outcome KeyedAccount
keyed_account_at_index accounts i = elim (get_elem? accounts i) [
  | none ↦ err not_enough_account_keys
  | some a ↦ ok a
]

pub data Feature : Type 0 where
  do_support_realloc reduce_required_deploy_balance requestable_heap_size : Feature
  stop_verify_mul64_imm_nonzero : Feature

pub record ComputeBudget : Type 0 where
  pub max_call_depth : ℕ
  pub stack_frame_size : ℕ
  pub heap_size : Option ℕ
  pub heap_cost : ℕ

-- An executable of the virtual machine, by a handle: the loader only passes it on.
abbrev pub Executable : Type 0
Executable = ℕ

pub record BpfExecutor : Type 0 where
  pub executable : Executable

pub record InvokeContext : Type 0 where
  pub caller : Outcome Pubkey  -- `get_caller`
  pub keyed_accounts : Outcome (List KeyedAccount)  -- `get_keyed_accounts`
  pub cells : Cells
  pub is_feature_active : Feature → Bool
  pub executors : Pubkey → Option BpfExecutor  -- `get_executor` and `add_executor`
  pub compute_budget : ComputeBudget
  pub compute_remaining : ℕ  -- the compute meter
  pub invoke_depth : ℕ

pub update_self : (cells : Cells) (p : ℕ) (a : Account) → update cells p a p ≡ a
update_self cells p a = rw (==_refl p)

pub update_ne : (cells : Cells) (p q : ℕ) (a : Account) → p ≢ q → update cells p a q ≡ cells q
update_ne cells p q a ne = rw (==_ne p q ne)
