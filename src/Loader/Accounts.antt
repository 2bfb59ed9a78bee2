-- ===== src/Loader/Accounts.antt =====
-- scripts/ref/bpf_loader/src/lib.rs: what the handlers do to accounts. Indexing and slicing out of
-- range panic, and so does a copy between slices of different lengths.
use solana_sdk_sample.Base.{
  ℕ, ◌+◌, ◌-◌, Bool, not, Option, none, some, ◌==◌, ltb, length, drop, splice, replicate,
  if◌then◌else◌,
}
use solana_sdk_sample.Runtime.Outcome.{
  Outcome, ok, err, panic, ◌>>=◌, ◌>>◌, fail_if, account_borrow_failed, immutable,
  incorrect_authority, missing_required_signature,
}
use solana_sdk_sample.Runtime.Account.{Account, Bytes, Pubkey, KeyedAccount, InvokeContext}
use solana_sdk_sample.Runtime.Action.{Action, modify_account}
use solana_sdk_sample.Runtime.Sdk.{Sdk}
use solana_sdk_sample.State.{UpgradeableLoaderState}

-- `authority_address == Some(*authority.unsigned_key())`
abbrev pub is_key : Option Pubkey → Pubkey → Bool
is_key none k = Bool.false
is_key (some a) k = a == k

-- An authority that may be absent: it has to be there, to be the given account, and to sign.
unfoldable pub check_authority : Option Pubkey → KeyedAccount → Outcome (Unit {0})
check_authority none account = err immutable
check_authority (some a) account = do
  fail_if (not (a == account.unsigned_key)) incorrect_authority
  fail_if (not account.is_signer) missing_required_signature

abbrev pub set_lamports : ℕ → Account → Outcome Account
set_lamports n a = ok (record a { lamports = n })

abbrev pub set_executable : Account → Outcome Account
set_executable a = ok (record a { executable = Bool.true })

-- `data[start..start + bytes.len()].copy_from_slice(bytes)`
abbrev pub write_range : ℕ → Bytes → Account → Outcome Account
write_range start bytes a =
    if ltb (length a.data_bytes) (start + length bytes)
    then panic
    else ok (record a { data_bytes = splice start bytes a.data_bytes })

-- `data[start..].fill(0)`
abbrev pub zero_from : ℕ → Account → Outcome Account
zero_from start a =
    if ltb (length a.data_bytes) start
    then panic
    else ok (record a {
      data_bytes = splice start (replicate (length a.data_bytes - start) 0) a.data_bytes;
    })

-- `src.try_account_ref()?.data()[from..]`, for a copy into `n` bytes of the account in `held`,
-- which is mutably borrowed
abbrev pub slice_while : ℕ → ℕ → ℕ → ℕ → InvokeContext → Outcome Bytes
slice_while held cell from n c =
    let bytes = drop from (c.cells cell).data_bytes in
    if held == cell
    then err account_borrow_failed
    else if ltb (length (c.cells cell).data_bytes) from
    then panic
    else if length bytes == n
    then ok bytes
    else panic

-- The range `start..start + n` is taken before the other account is borrowed.
abbrev pub has_range : ℕ → ℕ → ℕ → InvokeContext → Outcome (Unit {0})
has_range cell start n c =
    if ltb (length (c.cells cell).data_bytes) (start + n) then panic else ok tt

module _ (sdk : Sdk) where
  -- `account.state()?`
  abbrev pub state_of : KeyedAccount → InvokeContext → Outcome UpgradeableLoaderState
  state_of account c = sdk.state (c.cells account.cell).data_bytes

  abbrev pub with_state : UpgradeableLoaderState → Account → Outcome Account
  with_state s a = do d ← sdk.set_state s a.data_bytes; ok (record a { data_bytes = d })

  -- `account.set_state(&s)?`
  abbrev pub set_state_of : KeyedAccount → UpgradeableLoaderState → Action (Unit {0})
  set_state_of account s = modify_account account.cell (with_state s)

  -- `account.checked_add_lamports(amount)?`
  abbrev pub credit : ℕ → Account → Outcome Account
  credit amount a = do
    total ← sdk.checked_add_lamports a.lamports amount
    ok (record a { lamports = total })
