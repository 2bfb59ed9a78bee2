-- ===== src/Loader/Buffer/Laws.antt =====
-- What InitializeBuffer and Write do, on every branch.
use solana_sdk_sample.Base.{
  ℕ, ◌+◌, ◌≤◌, ◌≡◌, ◌≢◌, ◌↔◌, refl, ap, sym, subst, ◌∙◌, ==_refl, ==_ne, true, some, List, arith,
  length, take, drop, splice, length-splice, take-splice, read-splice, drop-splice,
}
use solana_sdk_sample.Runtime.Outcome.{Outcome, ok}
use solana_sdk_sample.Runtime.Account.{
  Bytes, KeyedAccount, InvokeContext, keyed_account_at_index, update,
}
use solana_sdk_sample.Runtime.Action.{◌>>=◌}
use solana_sdk_sample.Runtime.Sdk.{Sdk}
use solana_sdk_sample.Runtime.Sdk.Laws.{IsStateCodec}
use solana_sdk_sample.State
use solana_sdk_sample.State.{UpgradeableLoaderState, size_of_buffer_metadata}
use solana_sdk_sample.Loader.Accounts.{state_of}
use solana_sdk_sample.Loader.Buffer.{write}

-- What a successful Write has checked.
pub record MayWrite (sdk : Sdk) (c : InvokeContext) (buffer authority : KeyedAccount) (end_of : ℕ)
    : Type 0 where
  pub is_buffer : state_of sdk buffer c ≡ ok (State.buffer (some authority.unsigned_key))
  pub signed : authority.is_signer ≡ true
  pub fits : end_of ≤ length (c.cells buffer.cell).data_bytes

module _ (sdk : Sdk) (accounts : List KeyedAccount) (first offset : ℕ) (bytes : Bytes)
    (c : InvokeContext) (buffer authority : KeyedAccount) (same : c.keyed_accounts ≡ ok accounts)
    (eb : keyed_account_at_index accounts first ≡ ok buffer)
    (ea : keyed_account_at_index accounts (first + 1) ≡ ok authority) where
  write-MayWrite :
      (c' : InvokeContext)
      → write sdk accounts first offset bytes c ≡ (ok tt, c')
      → MayWrite sdk c buffer authority (37 + offset + length bytes)
  unfolding write ◌>>=◌
  write-MayWrite c' e = ground arith

  -- The context that a successful Write leaves.
  abbrev written : InvokeContext
  written =
      let a = c.cells buffer.cell in
      record c {
        cells =
            update c.cells buffer.cell
              (record a { data_bytes = splice (37 + offset) bytes a.data_bytes });
      }

  -- Write succeeds exactly when the account is a Buffer whose authority is the given account, which
  -- signs, and the range lies inside the account's data.
  pub write_iff :
      ((write sdk accounts first offset bytes c).0 ≡ ok tt)
      ↔ MayWrite sdk c buffer authority (37 + offset + length bytes)
  unfolding write ◌>>=◌
  write_iff = (λ e. ground arith, λ m. ground (arith, m.is_buffer, m.signed, m.fits))

  pub write-written :
      (write sdk accounts first offset bytes c).0 ≡ ok tt
      → write sdk accounts first offset bytes c ≡ (ok tt, written)
  unfolding write ◌>>=◌
  write-written e = ground arith

  -- A Write that fails changes nothing.
  pub write_fails_unchanged :
      (write sdk accounts first offset bytes c).0 ≢ ok tt
      → (write sdk accounts first offset bytes c).1 ≡ c
  unfolding write ◌>>=◌
  write_fails_unchanged e = ground arith

-- The data of the buffer after a Write, and every other account.
pub record Written (sdk : Sdk) (start : ℕ) (bytes : Bytes) (cell : ℕ) (c c' : InvokeContext)
    : Type 0 where
  pub range_written : take (length bytes) (drop start (c'.cells cell).data_bytes) ≡ bytes
  pub before_kept : take start (c'.cells cell).data_bytes ≡ take start (c.cells cell).data_bytes
  pub behind_kept :
      drop (start + length bytes) (c'.cells cell).data_bytes
      ≡ drop (start + length bytes) (c.cells cell).data_bytes
  pub length_kept : length (c'.cells cell).data_bytes ≡ length (c.cells cell).data_bytes
  pub state_kept : sdk.state (c'.cells cell).data_bytes ≡ sdk.state (c.cells cell).data_bytes
  pub lamports_kept : (c'.cells cell).lamports ≡ (c.cells cell).lamports
  pub others_kept : (q : ℕ) → q ≢ cell → c'.cells q ≡ c.cells q

splice-state :
    (sdk : Sdk) (s : UpgradeableLoaderState) (n : ℕ) (bytes data_bytes : Bytes)
    → IsStateCodec sdk
    → State.metadata_size s ≤ n
    → n ≤ length data_bytes
    → sdk.state data_bytes ≡ ok s
    → sdk.state (splice n bytes data_bytes) ≡ ok s
splice-state sdk s n bytes data_bytes codec le fits e =
    codec.state-take s data_bytes (splice n bytes data_bytes) e
      (take-splice (State.metadata_size s) n bytes data_bytes le fits)

splice-Written :
    (sdk : Sdk) (s : UpgradeableLoaderState) (n : ℕ) (bytes : Bytes) (cell : ℕ) (c : InvokeContext)
    → IsStateCodec sdk
    → State.metadata_size s ≤ n
    → n + length bytes ≤ length (c.cells cell).data_bytes
    → sdk.state (c.cells cell).data_bytes ≡ ok s
    → let a = c.cells cell in
      Written sdk n bytes cell c (record c {
        cells = update c.cells cell (record a { data_bytes = splice n bytes a.data_bytes });
      })
splice-Written sdk s n bytes cell c codec le fits e =
    let old = (c.cells cell).data_bytes in
    let in_range : n ≤ length old = omega arith in
    record {
      range_written = rw (==_refl cell) (read-splice n bytes old in_range);
      before_kept = rw (==_refl cell) (take-splice n n bytes old (omega arith) in_range);
      behind_kept = rw (==_refl cell) (drop-splice n (n + length bytes) bytes old refl in_range);
      length_kept = rw (==_refl cell) (length-splice n bytes old fits);
      state_kept = rw (==_refl cell) (splice-state sdk s n bytes old codec le in_range e ∙ sym e);
      lamports_kept = rw (==_refl cell);
      others_kept = λ q ne. rw (==_ne cell q (λ same. ne (sym same)));
    }

-- A successful Write puts the bytes at the offset behind the metadata. Nothing else changes: not
-- the rest of the data, the state and its authority, the lamports, or any other account.
pub write-Written :
    (sdk : Sdk) (accounts : List KeyedAccount) (first offset : ℕ) (bytes : Bytes)
    (c c' : InvokeContext) (buffer authority : KeyedAccount)
    → IsStateCodec sdk
    → c.keyed_accounts ≡ ok accounts
    → keyed_account_at_index accounts first ≡ ok buffer
    → keyed_account_at_index accounts (first + 1) ≡ ok authority
    → write sdk accounts first offset bytes c ≡ (ok tt, c')
    → Written sdk (37 + offset) bytes buffer.cell c c'
write-Written sdk accounts first offset bytes c c' buffer authority codec same eb ea e =
    let done = ap (λ (r : Outcome (Unit {0}) × InvokeContext). r.0) e in
    let m = (write_iff sdk accounts first offset bytes c buffer authority same eb ea).0 done in
    let left = write-written sdk accounts first offset bytes c buffer authority same eb ea done in
    subst (Written sdk (37 + offset) bytes buffer.cell c)
      (ap (λ (r : Outcome (Unit {0}) × InvokeContext). r.1) (sym left ∙ e))
      (splice-Written sdk (State.buffer (some authority.unsigned_key)) (37 + offset) bytes
        buffer.cell c codec (omega arith) m.fits m.is_buffer)
