-- ===== src/Loader/Deploy/Recorded.antt =====
-- What DeployWithMaxDataLen records: the ProgramData account, the Program account and the lamports.
use solana_sdk_sample.Base.{
  ℕ, ◌≡◌, ◌≢◌, ap, sym, subst₂, ◌∙◌, Bool, true, not, some, List, arith, length, take, drop,
  take-splice, read-splice,
}
use solana_sdk_sample.Runtime.Outcome.{Outcome, ok}
use solana_sdk_sample.Runtime.Account.{
  Account, Bytes, KeyedAccount, InvokeContext, update, update_self, update_ne,
}
use solana_sdk_sample.Runtime.Action.{modify_account, lamports_while}
use solana_sdk_sample.Runtime.Action.Triple.{
  Triple, Keeps, Triple-reads_bind, Triple-bind, Triple-when, Triple-strengthen,
  Triple-modify_account,
}
use solana_sdk_sample.Runtime.Action.At.{At, At-known, At-modify_bind}
use solana_sdk_sample.Runtime.Sdk.{Sdk}
use solana_sdk_sample.Runtime.Sdk.Laws.{IsStateCodec}
use solana_sdk_sample.State
use solana_sdk_sample.State.{UpgradeableLoaderState}
use solana_sdk_sample.Loader.Accounts.{
  set_executable, set_lamports, credit, with_state, set_state_of,
}
use solana_sdk_sample.Loader.Close.{drain}
use solana_sdk_sample.Loader.Authority.Laws.{with_state-stored}
use solana_sdk_sample.Loader.Deploy.{DeployAccounts, Lengths}
use solana_sdk_sample.Loader.Deploy.Commit.{record_program, copy_program}
use solana_sdk_sample.Loader.Upgrade.Laws.{CopiedInto, copy-CopiedInto}
use solana_sdk_sample.Loader.Frozen.Deploy.{DeployIndices}

-- The state of a ProgramData account that Deploy writes.
abbrev pub deployed_state : DeployAccounts → UpgradeableLoaderState
deployed_state d = State.program_data d.clock.slot (some d.authority.unsigned_key)

-- What a successful Deploy leaves in the program's two accounts, for the given program bits.
pub record Recorded (sdk : Sdk) (d : DeployAccounts) (bits : Bytes) (e : InvokeContext)
    : Type 0 where
  pub programdata_state : sdk.state (e.cells d.programdata.cell).data_bytes ≡ ok (deployed_state d)
  pub programdata_bits : take (length bits) (drop 45 (e.cells d.programdata.cell).data_bytes) ≡ bits
  pub program_state :
      sdk.state (e.cells d.program.cell).data_bytes ≡ ok (State.program d.programdata.unsigned_key)
  pub program_executable : (e.cells d.program.cell).executable ≡ true

module _ (sdk : Sdk) (codec : IsStateCodec sdk) (d : DeployAccounts) (e : InvokeContext)
    (apart : d.programdata.cell ≢ d.program.cell) where
  abbrev bits : Bytes
  bits = drop 37 (e.cells d.buffer.cell).data_bytes

  abbrev Done : InvokeContext → Type 0
  Done = Recorded sdk d bits

  -- The ProgramData account is written.
  record HasBits (f : InvokeContext) : Type 0 where
    has_state : sdk.state (f.cells d.programdata.cell).data_bytes ≡ ok (deployed_state d)
    has_bits : take (length bits) (drop 45 (f.cells d.programdata.cell).data_bytes) ≡ bits

  abbrev HasProgram : InvokeContext → Type 0
  HasProgram f =
      HasBits f
      × (sdk.state (f.cells d.program.cell).data_bytes
          ≡ ok (State.program d.programdata.unsigned_key))

  copied-HasBits :
      (a : Account) (k : ℕ) (f : InvokeContext)
      → sdk.state a.data_bytes ≡ ok (deployed_state d)
      → CopiedInto sdk codec (deployed_state d) (omega arith) d.programdata d.buffer e a k f
      → HasBits f
  copied-HasBits a k f es h = record {
    has_state =
        ap sdk.state h.spliced
        ∙ codec.state-take (deployed_state d) a.data_bytes _ es
            (take-splice 45 45 bits a.data_bytes (omega arith) (omega (arith, h.fits)));
    has_bits =
        ap (λ xs. take (length bits) (drop 45 xs)) h.spliced
        ∙ read-splice 45 bits a.data_bytes (omega (arith, h.fits));
  }

  -- Another account changes.
  HasBits-modify_ne :
      (f : InvokeContext) (a : Account)
      → HasBits f
      → HasBits (record f { cells = update f.cells d.program.cell a })
  HasBits-modify_ne f a h =
      let same = update_ne f.cells d.program.cell d.programdata.cell a (λ x. apart (sym x)) in
      record {
        has_state = ap (λ (y : Account). sdk.state y.data_bytes) same ∙ h.has_state;
        has_bits =
            ap (λ (y : Account). take (length bits) (drop 45 y.data_bytes)) same ∙ h.has_bits;
      }

  HasProgram-set_state :
      Triple HasBits
        (set_state_of sdk d.program (State.program d.programdata.unsigned_key))
        HasProgram
  HasProgram-set_state = Triple-modify_account d.program.cell _ λ f a h k. (
    HasBits-modify_ne f a h,
    ap (λ (y : Account). sdk.state y.data_bytes) (update_self f.cells d.program.cell a)
        ∙ (with_state-stored sdk _ (f.cells d.program.cell) a codec k).0,
  )

  Done-set_executable : Triple HasProgram (modify_account d.program.cell set_executable) Done
  Done-set_executable = Triple-modify_account d.program.cell set_executable λ f a h k.
      let kept = HasBits-modify_ne f a h.0 in
      let data_kept : a.data_bytes ≡ (f.cells d.program.cell).data_bytes = ground arith in
      record {
        programdata_state = kept.has_state;
        programdata_bits = kept.has_bits;
        program_state =
            ap (λ (y : Account). sdk.state y.data_bytes) (update_self f.cells d.program.cell a)
            ∙ ap sdk.state data_kept
            ∙ h.1;
        program_executable =
            ap (λ (y : Account). y.executable) (update_self f.cells d.program.cell a)
            ∙ (ground arith);
      }

  -- A change of lamports alone.
  Done-modify :
      (cell : ℕ) (f : Account → Outcome Account)
      → ((x y : Account)
          → f x ≡ ok y
          → (y.data_bytes ≡ x.data_bytes) × (y.executable ≡ x.executable))
      → Keeps Done (modify_account cell f)
  Done-modify cell f same = Triple-modify_account cell f λ g a h k.
      let data_kept : (x : ℕ) → (update g.cells cell a x).data_bytes ≡ (g.cells x).data_bytes =
        λ x. ground (arith, (same (g.cells cell) a k).0, moved g x) in
      record {
        programdata_state = ap sdk.state (data_kept d.programdata.cell) ∙ h.programdata_state;
        programdata_bits =
            ap (λ xs. take (length bits) (drop 45 xs)) (data_kept d.programdata.cell)
            ∙ h.programdata_bits;
        program_state = ap sdk.state (data_kept d.program.cell) ∙ h.program_state;
        program_executable =
            ground
              (arith, (same (g.cells cell) a k).1, moved g d.program.cell, h.program_executable);
      }
    where
      moved : (g : InvokeContext) (x : ℕ) → cell ≡ x → g.cells cell ≡ g.cells x
      moved g x e = ap g.cells e

  Done-drain : (source recipient : KeyedAccount) → Keeps Done (drain sdk source recipient)
  unfolding drain
  Done-drain source recipient =
      Triple-reads_bind (lamports_while recipient.cell source.cell) _ λ f h amount _.
        Triple-bind _ _
          (Done-modify recipient.cell (credit sdk amount) (λ x y k. (ground arith, ground arith)))
          λ _. Done-modify source.cell (set_lamports 0) (λ x y k. (ground arith, ground arith))

  module _ (accounts : List KeyedAccount) (first : ℕ) (at : DeployIndices accounts first d)
      (l : Lengths)
      (at_offsets : (l.programdata_data_offset ≡ 45) × (l.buffer_data_offset ≡ 37)) where
    abbrev Copied : Account → InvokeContext → Type 0
    Copied a =
        CopiedInto sdk codec (deployed_state d) (omega arith) d.programdata d.buffer e a
          l.buffer_data_len

    copied :
        (a : Account)
        → Triple
            (At (record e { cells = update e.cells d.programdata.cell a }))
            (copy_program d.programdata l.programdata_data_offset l.buffer_data_len d.buffer
              l.buffer_data_offset)
            (Copied a)
    copied a =
        subst₂
          (λ start from.
            Triple (At (record e { cells = update e.cells d.programdata.cell a }))
              (copy_program d.programdata start l.buffer_data_len d.buffer from) (Copied a))
          (sym at_offsets.0) (sym at_offsets.1)
          (copy-CopiedInto sdk codec (deployed_state d) (omega arith) d.programdata d.buffer e a
            l.buffer_data_len)

    pub Done-record_program :
        (predrain : Bool) → Triple (At e) (record_program sdk d l predrain accounts first) Done
    unfolding record_program
    Done-record_program predrain = At-known _ _ d.payer at.at_payer (
        At-known _ _ d.programdata at.at_programdata (
          At-known _ _ d.program at.at_program (
            At-known _ _ d.buffer at.at_buffer (
              At-modify_bind d.programdata.cell (with_state sdk (deployed_state d)) _ λ a k.
                Triple-bind _ _
                  (Triple-strengthen _ (copied a) (λ f h.
                    copied-HasBits a l.buffer_data_len f
                      (with_state-stored sdk (deployed_state d) (e.cells d.programdata.cell) a codec
                        k).0
                      h))
                  λ _. Triple-bind _ _ HasProgram-set_state λ _.
                    Triple-bind _ _ Done-set_executable
                      λ _. Triple-when (not predrain) _ λ _. Done-drain d.buffer d.payer))))
