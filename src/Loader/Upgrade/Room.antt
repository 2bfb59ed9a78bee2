-- ===== src/Loader/Upgrade/Room.antt =====
-- The end of Upgrade, when its accounts have room.
use solana_sdk_sample.Base.{
  ℕ, ◌+◌, ◌-◌, ◌≤◌, ◌<◌, ◌≡◌, ◌≢◌, refl, ap, sym, ◌∙◌, arith, length, drop, splice, replicate,
  length-splice, length-drop, length-replicate, ==_ne, u64_bound,
}
use solana_sdk_sample.Runtime.Outcome.{Outcome, ok, ◌>>=◌, add_u64}
use solana_sdk_sample.Runtime.Account.{
  Account, Bytes, KeyedAccount, InvokeContext, update, update_self, update_ne,
}
use solana_sdk_sample.Runtime.Action
use solana_sdk_sample.Runtime.Action.{◌>>◌, lamports_while, modify_account}
use solana_sdk_sample.Runtime.Action.Success.{
  Succeeds, Succeeds-lift, Succeeds-reads, Succeeds-modify, Succeeds-modify_bind, Succeeds-bind,
}
use solana_sdk_sample.Runtime.Sdk.{Sdk}
use solana_sdk_sample.Runtime.Sdk.Laws.{IsCheckedAdd, IsStateCodec}
use solana_sdk_sample.State
use solana_sdk_sample.State.{UpgradeableLoaderState}
use solana_sdk_sample.Loader.Accounts.{
  set_state_of, with_state, zero_from, set_lamports, credit, has_range, slice_while, write_range,
}
use solana_sdk_sample.Loader.Deploy.Commit.{copy_program}
use solana_sdk_sample.Loader.Upgrade.Commit.{fund_programdata}

-- What the end of Upgrade relies on: its three accounts are three, the program fits into the
-- ProgramData account, and the lamports are enough for it and fit into the spill account.
pub record Fits (programdata buffer spill : KeyedAccount) (required : ℕ) (c : InvokeContext)
    : Type 0 where
  pub buffer_apart : programdata.cell ≢ buffer.cell
  pub spill_apart : spill.cell ≢ programdata.cell
  pub spill_not_buffer : spill.cell ≢ buffer.cell
  pub has_metadata : 37 ≤ length (c.cells buffer.cell).data_bytes
  pub program_fits :
      8 + length (c.cells buffer.cell).data_bytes ≤ length (c.cells programdata.cell).data_bytes
  pub sum_fits : (c.cells programdata.cell).lamports + (c.cells buffer.cell).lamports < u64_bound
  pub spill_fits :
      (c.cells spill.cell).lamports
        + ((c.cells programdata.cell).lamports + (c.cells buffer.cell).lamports - required)
      < u64_bound

module _ (sdk : Sdk) (law : IsCheckedAdd sdk) (codec : IsStateCodec sdk) (p b spill : KeyedAccount)
    (required : ℕ) (c : InvokeContext) (fits : Fits p b spill required c) where
  abbrev k : ℕ
  k = length (c.cells b.cell).data_bytes - 37

  -- Only the data of the ProgramData account has changed, not its length.
  record Ready (d : InvokeContext) : Type 0 where
    same_size : length (d.cells p.cell).data_bytes ≡ length (c.cells p.cell).data_bytes
    same_lamports : (d.cells p.cell).lamports ≡ (c.cells p.cell).lamports
    same_buffer : d.cells b.cell ≡ c.cells b.cell
    same_spill : d.cells spill.cell ≡ c.cells spill.cell

  abbrev with_programdata : InvokeContext → Account → InvokeContext
  with_programdata d a = record d { cells = update d.cells p.cell a }

  Ready-update :
      (d : InvokeContext) (a : Account)
      → Ready d
      → length a.data_bytes ≡ length (c.cells p.cell).data_bytes
      → a.lamports ≡ (c.cells p.cell).lamports
      → Ready (with_programdata d a)
  Ready-update d a r size lamports = record {
    same_size = ap (λ (x : Account). length x.data_bytes) (update_self d.cells p.cell a) ∙ size;
    same_lamports = ap (λ (x : Account). x.lamports) (update_self d.cells p.cell a) ∙ lamports;
    same_buffer = update_ne d.cells p.cell b.cell a fits.buffer_apart ∙ r.same_buffer;
    same_spill =
        update_ne d.cells p.cell spill.cell a (λ e. fits.spill_apart (sym e)) ∙ r.same_spill;
  }

  Changes : (Account → Outcome Account) → InvokeContext → Type 0
  Changes f d = (a : Account) × (f (d.cells p.cell) ≡ ok a) × Ready (with_programdata d a)

  sets_state :
      (s : UpgradeableLoaderState) (d : InvokeContext)
      → State.metadata_size s ≤ 45
      → Ready d
      → Changes (with_state sdk s) d
  unfolding Changes
  sets_state s d small r =
      let old = d.cells p.cell in
      let (data_bytes, e) =
        codec.set_state_fits s old.data_bytes
          (omega (arith, r.same_size, fits.program_fits, fits.has_metadata)) in
      let a : Account = record old { data_bytes = data_bytes } in
      (
        a,
        ap (λ (x : Outcome Bytes). x >>= λ d. ok (record old { data_bytes = d })) e,
        Ready-update d a r (codec.length-set_state s old.data_bytes data_bytes e ∙ r.same_size)
            r.same_lamports,
      )

  zeroes : (d : InvokeContext) → Ready d → Changes (zero_from (45 + k)) d
  unfolding Changes
  zeroes d r =
      let old = d.cells p.cell in
      let zeros : Bytes = replicate (length old.data_bytes - (45 + k)) 0 in
      let in_range : 45 + k ≤ length old.data_bytes =
        omega (arith, r.same_size, fits.program_fits, fits.has_metadata) in
      let a : Account = record old { data_bytes = splice (45 + k) zeros old.data_bytes } in
      (
        a,
        ground arith,
        Ready-update d a r
            (length-splice (45 + k) zeros old.data_bytes (
                omega
                  (arith, in_range, length-replicate {A = ℕ} (length old.data_bytes - (45 + k)) 0))
              ∙ r.same_size)
            r.same_lamports,
      )

  abbrev copied : InvokeContext → Account
  copied d =
      let old = d.cells p.cell in
      record old { data_bytes = splice 45 (drop 37 (d.cells b.cell).data_bytes) old.data_bytes }

  copies :
      (d : InvokeContext)
      → Ready d
      → (copy_program p 45 k b 37 d ≡ (ok tt, with_programdata d (copied d)))
        × Ready (with_programdata d (copied d))
  unfolding copy_program Action.◌>>=◌
  copies d r =
      let old = d.cells p.cell in
      let bits : Bytes = drop 37 (d.cells b.cell).data_bytes in
      let buffer_size = ap (λ (x : Account). length x.data_bytes) r.same_buffer in
      let size : length bits ≡ k =
        omega (arith, length-drop 37 (d.cells b.cell).data_bytes, buffer_size) in
      let in_range : 45 + k ≤ length old.data_bytes =
        omega (arith, r.same_size, fits.program_fits, fits.has_metadata) in
      let has : has_range p.cell 45 k d ≡ ok tt = ground arith in
      let reads : slice_while p.cell b.cell 37 k d ≡ ok bits =
        ground (arith, fits.buffer_apart, fits.has_metadata, buffer_size, size) in
      let writes : write_range 45 bits old ≡ ok (copied d) = ground (arith, size, in_range) in
      (
        rw (has, reads, writes),
        Ready-update d (copied d) r
            (length-splice 45 bits old.data_bytes (omega (arith, size, in_range)) ∙ r.same_size)
            r.same_lamports,
      )

  pays : (d : InvokeContext) → Ready d → Succeeds (fund_programdata sdk p b spill required) d
  unfolding fund_programdata
  pays d r =
      let brought = ap (λ (x : Account). x.lamports) r.same_buffer in
      let had = ap (λ (x : Account). x.lamports) r.same_spill in
      let held : ℕ = (d.cells p.cell).lamports in
      let carried : ℕ = (d.cells b.cell).lamports in
      let funds : ℕ = held + carried in
      let old = d.cells spill.cell in
      let credited : Account = record old { lamports = old.lamports + (funds - required) } in
      Succeeds-reads (lamports_while spill.cell p.cell) _ d held
        (rw (==_ne spill.cell p.cell fits.spill_apart))
        (Succeeds-reads (lamports_while spill.cell b.cell) _ d carried
          (rw (==_ne spill.cell b.cell fits.spill_not_buffer))
          (Succeeds-lift (add_u64 held carried) _ d funds
            (ground (arith, r.same_lamports, brought, fits.sum_fits))
            (Succeeds-modify_bind spill.cell (credit sdk (funds - required)) _ d credited
              (rw (
                law.fits (d.cells spill.cell).lamports (funds - required)
                  (omega (arith, r.same_lamports, brought, had, fits.spill_fits))))
              (Succeeds-modify_bind b.cell (set_lamports 0) _ _ _ refl
                (Succeeds-modify p.cell (set_lamports required) _ _ refl)))))

  -- The end of Upgrade, from the context where it starts.
  pub writes_and_pays :
      (s : UpgradeableLoaderState)
      → State.metadata_size s ≤ 45
      → Succeeds
          (set_state_of sdk p s
            >> (copy_program p 45 k b 37
                >> (modify_account p.cell (zero_from (45 + k))
                    >> fund_programdata sdk p b spill required)))
          c
  unfolding Changes
  writes_and_pays s small =
      let (a, stored, r₁) = sets_state s c small start in
      let (runs, r₂) = copies (with_programdata c a) r₁ in
      let (z, zeroed, r₃) = zeroes _ r₂ in
      Succeeds-modify_bind p.cell (with_state sdk s) _ c a stored (
        Succeeds-bind (copy_program p 45 k b 37) _ _ _ tt runs
          (Succeeds-modify_bind p.cell (zero_from (45 + k)) _ _ z zeroed (pays _ r₃)))
    where
      start : Ready c
      start = record {
        same_size = refl;
        same_lamports = refl;
        same_buffer = refl;
        same_spill = refl;
      }
