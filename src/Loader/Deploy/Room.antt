-- ===== src/Loader/Deploy/Room.antt =====
-- The end of DeployWithMaxDataLen, when its accounts have room.
use solana_sdk_sample.Base.{
  ℕ, ◌+◌, ◌-◌, ◌≤◌, ◌≡◌, ◌≢◌, refl, ap, ◌∙◌, true, arith, length, drop, splice, length-splice,
  length-drop,
}
use solana_sdk_sample.Runtime.Outcome.{Outcome, ok, ◌>>=◌}
use solana_sdk_sample.Runtime.Account.{
  Account, Bytes, KeyedAccount, InvokeContext, update, update_ne,
}
use solana_sdk_sample.Runtime.Action
use solana_sdk_sample.Runtime.Action.{Action, modify_account}
use solana_sdk_sample.Runtime.Sdk.{Sdk}
use solana_sdk_sample.Runtime.Sdk.Laws.{IsStateCodec}
use solana_sdk_sample.State
use solana_sdk_sample.State.{UpgradeableLoaderState}
use solana_sdk_sample.Loader.Accounts.{
  with_state, set_executable, has_range, slice_while, write_range, set_state_of,
}
use solana_sdk_sample.Loader.Deploy.Commit.{copy_program}

module _ (b : KeyedAccount) (e : InvokeContext) where
  -- The buffer is untouched, and so are the sizes and the lamports of all accounts.
  pub record Ready (d : InvokeContext) : Type 0 where
    pub same_sizes : (x : ℕ) → length (d.cells x).data_bytes ≡ length (e.cells x).data_bytes
    pub same_lamports : (x : ℕ) → (d.cells x).lamports ≡ (e.cells x).lamports
    pub same_buffer : d.cells b.cell ≡ e.cells b.cell

  -- A step that succeeds.
  pub record Steps (m : Action (Unit {0})) (d : InvokeContext) : Type 0 where
    pub after : InvokeContext
    pub runs : m d ≡ (ok tt, after)
    pub ready : Ready after

  modify-Steps :
      (cell : ℕ) (f : Account → Outcome Account) (d : InvokeContext) (a : Account)
      → Ready d
      → cell ≢ b.cell
      → f (d.cells cell) ≡ ok a
      → length a.data_bytes ≡ length (d.cells cell).data_bytes
      → a.lamports ≡ (d.cells cell).lamports
      → Steps (modify_account cell f) d
  unfolding Action.modify_account
  modify-Steps cell f d a r other done size lamports = record {
    after = record d { cells = update d.cells cell a };
    runs = rw done refl;
    ready = record {
      same_sizes = λ x. ground (arith, r.same_sizes x, size, at x);
      same_lamports = λ x. ground (arith, r.same_lamports x, lamports, at x);
      same_buffer = update_ne d.cells cell b.cell a other ∙ r.same_buffer;
    };
  }
    where
      at : (x : ℕ) → cell ≡ x → d.cells cell ≡ d.cells x
      at x same = ap d.cells same

  pub set_state-Steps :
      (sdk : Sdk)
      → IsStateCodec sdk
      → (k : KeyedAccount) (s : UpgradeableLoaderState) (d : InvokeContext) → Ready d
      → k.cell ≢ b.cell
      → State.metadata_size s ≤ length (e.cells k.cell).data_bytes
      → Steps (set_state_of sdk k s) d
  set_state-Steps sdk codec k s d r other room =
      let old = d.cells k.cell in
      let (data_bytes, fits) =
        codec.set_state_fits s old.data_bytes (omega (arith, r.same_sizes k.cell, room)) in
      modify-Steps k.cell (with_state sdk s) d (record old { data_bytes = data_bytes }) r other
        (ap (λ (x : Outcome Bytes). x >>= λ d. ok (record old { data_bytes = d })) fits)
        (codec.length-set_state s old.data_bytes data_bytes fits) refl

  pub set_executable-Steps :
      (k : KeyedAccount) (d : InvokeContext)
      → Ready d
      → k.cell ≢ b.cell
      → Steps (modify_account k.cell set_executable) d
  set_executable-Steps k d r other =
      modify-Steps k.cell set_executable d (record (d.cells k.cell) { executable = true }) r other
        refl refl refl

  module _ (p : KeyedAccount) (apart : p.cell ≢ b.cell) (m : ℕ)
      (size : length (e.cells b.cell).data_bytes ≡ m) (has_metadata : 37 ≤ m)
      (fits : 45 + (m - 37) ≤ length (e.cells p.cell).data_bytes) where
    pub copy_program-Steps :
        (d : InvokeContext) → Ready d → Steps (copy_program p 45 (m - 37) b 37) d
    unfolding copy_program Action.◌>>=◌
    copy_program-Steps d r =
        let old = d.cells p.cell in
        let bits : Bytes = drop 37 (d.cells b.cell).data_bytes in
        let buffer_size = ap (λ (x : Account). length x.data_bytes) r.same_buffer in
        let bits_size : length bits ≡ m - 37 =
          omega (arith, length-drop 37 (d.cells b.cell).data_bytes, buffer_size, size) in
        let in_range : 45 + (m - 37) ≤ length old.data_bytes =
          omega (arith, r.same_sizes p.cell, fits) in
        let has : has_range p.cell 45 (m - 37) d ≡ ok tt = ground (arith, in_range) in
        let reads : slice_while p.cell b.cell 37 (m - 37) d ≡ ok bits =
          ground (arith, apart, has_metadata, buffer_size, size, bits_size) in
        let written : Account = record old { data_bytes = splice 45 bits old.data_bytes } in
        let writes : write_range 45 bits old ≡ ok written = ground (arith, bits_size, in_range) in
        let step =
          modify-Steps p.cell (write_range 45 bits) d written r apart writes
            (length-splice 45 bits old.data_bytes (omega (arith, bits_size, in_range))) refl in
        record { after = step.after; runs = rw (has, reads) step.runs; ready = step.ready }
