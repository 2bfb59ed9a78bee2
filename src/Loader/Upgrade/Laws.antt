-- ===== src/Loader/Upgrade/Laws.antt =====
-- Who may upgrade a program, and what an upgrade leaves in its ProgramData account.
use solana_sdk_sample.Base.{
  ℕ, ◌+◌, ◌-◌, ◌≤◌, ◌≡◌, ap, sym, subst, subst₂, ◌∙◌, true, some, arith, length, take, drop, splice,
  replicate, length-splice, length-replicate, take-splice, read-splice, take-drop-splice,
  drop-splice_end,
}
use solana_sdk_sample.Runtime.Outcome.{Outcome, ok}
use solana_sdk_sample.Runtime.Account.{
  Account, Bytes, Pubkey, KeyedAccount, InvokeContext, update, update_self,
}
use solana_sdk_sample.Runtime.Action.{Action, modify_account, ◌>>=◌}
use solana_sdk_sample.Runtime.Action.Triple.{
  Triple, Keeps, Triple-reads_bind, Triple-lift_bind, Triple-bind, Triple-modify_account,
}
use solana_sdk_sample.Runtime.Action.At.{At, At-reads, At-modify, At-modify_bind}
use solana_sdk_sample.Runtime.Sdk.{Sdk}
use solana_sdk_sample.Runtime.Sdk.Laws.{IsStateCodec}
use solana_sdk_sample.State
use solana_sdk_sample.State.{UpgradeableLoaderState}
use solana_sdk_sample.Loader.Accounts.{
  state_of, with_state, write_range, zero_from, slice_while, has_range, set_state_of,
}
use solana_sdk_sample.Loader.Deploy.Commit.{copy_program}
use solana_sdk_sample.Loader.Upgrade.{
  UpgradeAccounts, UpgradeLengths, verify_program, verify_buffer, verify_programdata,
}
use solana_sdk_sample.Loader.Upgrade.Commit.{fund_programdata}
use solana_sdk_sample.Loader.Authority.Laws.{with_state-stored}

-- What Upgrade has checked before it changes anything.
pub record MayUpgrade (sdk : Sdk) (programdata program buffer authority : KeyedAccount)
    (id : Pubkey) (c : InvokeContext) : Type 0 where
  pub signed : authority.is_signer ≡ true
  pub buffer_authority : state_of sdk buffer c ≡ ok (State.buffer (some authority.unsigned_key))
  pub upgrade_authority :
      (slot : ℕ) × (state_of sdk programdata c
        ≡ ok (State.program_data slot (some authority.unsigned_key)))
  pub program_points : state_of sdk program c ≡ ok (State.program programdata.unsigned_key)
  pub program_executable : (c.cells program.cell).executable ≡ true
  pub program_owned : (c.cells program.cell).owner ≡ id
  pub buffer_not_empty : 38 ≤ length (c.cells buffer.cell).data_bytes

pub verified :
    (sdk : Sdk) (u : UpgradeAccounts) (l : UpgradeLengths) (id : Pubkey) (c : InvokeContext)
    → verify_program sdk u id c ≡ ok tt
    → verify_buffer sdk u c ≡ ok l
    → verify_programdata sdk u l c ≡ ok tt
    → MayUpgrade sdk u.programdata u.program u.buffer u.authority id c
unfolding verify_program verify_buffer verify_programdata
verified sdk u l id c ep eb ed = record {
  signed = ground arith;
  buffer_authority = ground arith;
  upgrade_authority = ground arith;
  program_points = ground arith;
  program_executable = ground arith;
  program_owned = ground arith;
  buffer_not_empty = ground arith;
}

-- The data of a ProgramData account that holds `program` and nothing else behind its metadata.
pub record HoldsProgram (sdk : Sdk) (s : UpgradeableLoaderState) (program : Bytes) (size : ℕ)
    (data_bytes : Bytes) : Type 0 where
  pub state_now : sdk.state data_bytes ≡ ok s
  pub program_now : take (length program) (drop 45 data_bytes) ≡ program
  pub rest_zero : drop (45 + length program) data_bytes ≡ replicate (size - (45 + length program)) 0
  pub length_kept : length data_bytes ≡ size

-- The three writes to the data, one after another.
three_writes :
    (sdk : Sdk) (s : UpgradeableLoaderState) (program data_bytes : Bytes)
    → IsStateCodec sdk
    → State.metadata_size s ≤ 45
    → sdk.state data_bytes ≡ ok s
    → 45 + length program ≤ length data_bytes
    → let zeros : Bytes = replicate (length data_bytes - (45 + length program)) 0 in
      HoldsProgram sdk s program
        (length data_bytes)
        (splice (45 + length program) zeros (splice 45 program data_bytes))
three_writes sdk s program old codec le es fits =
    let n = length program in
    let zeros : Bytes = replicate (length old - (45 + n)) 0 in
    let copied : Bytes = splice 45 program old in
    let same : length copied ≡ length old = length-splice 45 program old fits in
    let zeros_length : length zeros ≡ length old - (45 + n) =
      length-replicate (length old - (45 + n)) 0 in
    record {
      state_now = codec.state-take s old _ es (
          take-splice (State.metadata_size s) (45 + n) zeros copied (omega arith) (omega arith)
          ∙ take-splice (State.metadata_size s) 45 program old le (omega arith));
      program_now =
          take-drop-splice 45 n (45 + n) zeros copied (omega arith) (omega arith)
          ∙ read-splice 45 program old (omega arith);
      rest_zero = drop-splice_end (45 + n) zeros copied (omega arith);
      length_kept = length-splice (45 + n) zeros copied (omega arith) ∙ same;
    }

zero_from-data :
    (n : ℕ) (a b : Account)
    → zero_from n a ≡ ok b
    → b.data_bytes ≡ splice n (replicate (length a.data_bytes - n) 0) a.data_bytes
zero_from-data n a b e = ground arith

module _ (sdk : Sdk) (codec : IsStateCodec sdk) (s : UpgradeableLoaderState)
    (small : State.metadata_size s ≤ 45) (p b : KeyedAccount) (c : InvokeContext) where
  -- The program bits of the buffer, at the start.
  abbrev pub bits : Bytes
  bits = drop 37 (c.cells b.cell).data_bytes

  abbrev pub Programmed : InvokeContext → Type 0
  Programmed d =
      HoldsProgram sdk s bits (length (c.cells p.cell).data_bytes) (d.cells p.cell).data_bytes

  -- What the copy has read and written.
  copied_bits :
      (a : Account) (k : ℕ) (found : Bytes)
      → slice_while p.cell b.cell 37 k (record c { cells = update c.cells p.cell a }) ≡ ok found
      → (found ≡ bits) × (length bits ≡ k)
  copied_bits a k found e = (ground arith, ground arith)

  -- After the copy into the account `a`.
  pub record CopiedInto (a : Account) (k : ℕ) (d : InvokeContext) : Type 0 where
    pub spliced : (d.cells p.cell).data_bytes ≡ splice 45 bits a.data_bytes
    pub fits : 45 + length bits ≤ length a.data_bytes
    pub bits_length : length bits ≡ k

  pub copy-CopiedInto :
      (a : Account) (k : ℕ)
      → Triple
          (At (record c { cells = update c.cells p.cell a }))
          (copy_program p 45 k b 37)
          (CopiedInto a k)
  unfolding copy_program
  copy-CopiedInto a k = At-reads (has_range p.cell 45 k) _ λ _ er.
      At-reads (slice_while p.cell b.cell 37 k) _ λ found ef.
        let (same, size) = copied_bits a k found ef in
        subst
          (λ bytes.
            Triple (At (record c { cells = update c.cells p.cell a }))
              (modify_account p.cell (write_range 45 bytes)) (CopiedInto a k))
          (sym same)
          (At-modify p.cell (write_range 45 bits)
            λ a' e. record { spliced = ground arith; fits = ground arith; bits_length = size })

  abbrev pub size_before : ℕ
  size_before = length (c.cells p.cell).data_bytes

  abbrev zeroed_data : Account → Bytes
  zeroed_data a =
      splice (45 + length bits) (replicate (length a.data_bytes - (45 + length bits)) 0)
        (splice 45 bits a.data_bytes)

  zero-Programmed :
      (a : Account) (k : ℕ)
      → sdk.state a.data_bytes ≡ ok s
      → length a.data_bytes ≡ length (c.cells p.cell).data_bytes
      → Triple (CopiedInto a k) (modify_account p.cell (zero_from (45 + k))) Programmed
  zero-Programmed a k es size = Triple-modify_account p.cell (zero_from (45 + k)) λ d a' h e.
      subst (λ (y : Account). HoldsProgram sdk s bits size_before y.data_bytes)
        (sym (update_self d.cells p.cell a'))
        (subst (HoldsProgram sdk s bits size_before) (zeroed d a' h e) (
          subst (λ n. HoldsProgram sdk s bits n (zeroed_data a)) size
            (three_writes sdk s bits a.data_bytes codec small es h.fits)))
    where
      zeroed :
          (d : InvokeContext) (a' : Account)
          → CopiedInto a k d
          → zero_from (45 + k) (d.cells p.cell) ≡ ok a'
          → zeroed_data a ≡ a'.data_bytes
      zeroed d a' h e =
          let read = zero_from-data (45 + k) (d.cells p.cell) a' e in
          let spliced = rw h.spliced at read in
          let sized = rw (length-splice 45 bits a.data_bytes h.fits) at spliced in
          sym (rw (← h.bits_length) at sized)

  Programmed-same_data :
      (cell : ℕ) (f : Account → Outcome Account)
      → ((x y : Account) → f x ≡ ok y → y.data_bytes ≡ x.data_bytes)
      → Keeps Programmed (modify_account cell f)
  Programmed-same_data cell f same =
      Triple-modify_account cell f
        λ d a h e. subst (HoldsProgram sdk s bits size_before) (sym (kept d a e)) h
    where
      at_cell : (d : InvokeContext) → cell ≡ p.cell → d.cells cell ≡ d.cells p.cell
      at_cell d e = ap d.cells e

      kept :
          (d : InvokeContext) (a : Account)
          → f (d.cells cell) ≡ ok a
          → (update d.cells cell a p.cell).data_bytes ≡ (d.cells p.cell).data_bytes
      kept d a e = ground (arith, same (d.cells cell) a e, at_cell d)

  Programmed-fund :
      (spill : KeyedAccount) (required : ℕ)
      → Keeps Programmed (fund_programdata sdk p b spill required)
  unfolding fund_programdata
  Programmed-fund spill required = Triple-reads_bind _ _ λ _ _ held _.
      Triple-reads_bind _ _ λ _ _ brought _. Triple-lift_bind _ _ λ funds _.
        Triple-bind _ _ (Programmed-same_data spill.cell _ (λ x y e. ground arith)) λ _.
          Triple-bind _ _ (Programmed-same_data b.cell _ (λ x y e. ground arith))
            λ _. Programmed-same_data p.cell _ (λ x y e. ground arith)

  -- The end of Upgrade, with its two offsets.
  abbrev pub end_of_upgrade : KeyedAccount → ℕ → ℕ → ℕ → ℕ → Action (Unit {0})
  end_of_upgrade spill required k start from = set_state_of sdk p s >>= λ _.
      copy_program p start k b from >>= λ _.
      modify_account p.cell (zero_from (start + k)) >>= λ _. fund_programdata sdk p b spill required

  pub Programmed-upgrade :
      (spill : KeyedAccount) (required k start from : ℕ)
      → start ≡ 45
      → from ≡ 37
      → Triple (At c) (end_of_upgrade spill required k start from) Programmed
  Programmed-upgrade spill required k start from es ef =
      subst₂ (λ start from. Triple (At c) (end_of_upgrade spill required k start from) Programmed)
        (sym es) (sym ef)
        (At-modify_bind p.cell (with_state sdk s) _ λ a e.
          Triple-bind _ _ (copy-CopiedInto a k) λ _.
            Triple-bind _ _
              (zero-Programmed a k (with_state-stored sdk s (c.cells p.cell) a codec e).0
                (same_length a e))
              λ _. Programmed-fund spill required)
    where
      same_length :
          (a : Account)
          → with_state sdk s (c.cells p.cell) ≡ ok a
          → length a.data_bytes ≡ length (c.cells p.cell).data_bytes
      same_length a e =
          ground (arith, codec.length-set_state s (c.cells p.cell).data_bytes a.data_bytes)
