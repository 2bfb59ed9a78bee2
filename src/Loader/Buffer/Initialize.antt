-- ===== src/Loader/Buffer/Initialize.antt =====
-- What InitializeBuffer does, and that it is done once.
use solana_sdk_sample.Base.{
  ℕ, ◌+◌, ◌≤◌, ◌≡◌, ◌≢◌, refl, ap, sym, ==_refl, ==_ne, some, List, length, drop,
}
use solana_sdk_sample.Runtime.Outcome.{Outcome, ok, err, ◌>>=◌, account_already_initialized}
use solana_sdk_sample.Runtime.Account.{
  Account, Bytes, KeyedAccount, InvokeContext, keyed_account_at_index, update,
}
use solana_sdk_sample.Runtime.Action
use solana_sdk_sample.Runtime.Sdk.{Sdk}
use solana_sdk_sample.Runtime.Sdk.Laws.{IsStateCodec}
use solana_sdk_sample.State
use solana_sdk_sample.State.{UpgradeableLoaderState}
use solana_sdk_sample.Loader.Accounts.{state_of, with_state}
use solana_sdk_sample.Loader.Buffer.{initialize_buffer}

-- A context in which the buffer is initialised: what is behind the metadata, the lamports and the
-- other accounts are as they were, and a second InitializeBuffer is refused and changes nothing.
pub record Initialized (sdk : Sdk) (accounts : List KeyedAccount) (first : ℕ)
    (buffer authority : KeyedAccount) (c : InvokeContext) : Type 0 where
  pub c' : InvokeContext
  pub runs : initialize_buffer sdk accounts first c ≡ (ok tt, c')
  pub state_now : state_of sdk buffer c' ≡ ok (State.buffer (some authority.unsigned_key))
  pub length_kept :
      length (c'.cells buffer.cell).data_bytes ≡ length (c.cells buffer.cell).data_bytes
  pub behind_kept :
      drop 37 (c'.cells buffer.cell).data_bytes ≡ drop 37 (c.cells buffer.cell).data_bytes
  pub lamports_kept : (c'.cells buffer.cell).lamports ≡ (c.cells buffer.cell).lamports
  pub others_kept : (q : ℕ) → q ≢ buffer.cell → c'.cells q ≡ c.cells q
  pub not_again : initialize_buffer sdk accounts first c' ≡ (err account_already_initialized, c')

initialize_buffer-runs :
    (sdk : Sdk) (accounts : List KeyedAccount) (first : ℕ) (c : InvokeContext)
    (buffer authority : KeyedAccount) (a : Account)
    → keyed_account_at_index accounts first ≡ ok buffer
    → keyed_account_at_index accounts (first + 1) ≡ ok authority
    → state_of sdk buffer c ≡ ok State.uninitialized
    → with_state sdk (State.buffer (some authority.unsigned_key)) (c.cells buffer.cell) ≡ ok a
    → initialize_buffer sdk accounts first c
      ≡ (ok tt, record c { cells = update c.cells buffer.cell a })
unfolding initialize_buffer Action.◌>>=◌
initialize_buffer-runs sdk accounts first c buffer authority a eb ea es ew = rw (eb, es, ea, ew)

initialize_buffer-refused :
    (sdk : Sdk) (accounts : List KeyedAccount) (first : ℕ) (c : InvokeContext)
    (buffer : KeyedAccount) (s : UpgradeableLoaderState)
    → keyed_account_at_index accounts first ≡ ok buffer
    → state_of sdk buffer c ≡ ok s
    → s ≢ State.uninitialized
    → initialize_buffer sdk accounts first c ≡ (err account_already_initialized, c)
unfolding initialize_buffer Action.◌>>=◌
initialize_buffer-refused sdk accounts first c buffer State.uninitialized eb es ne =
    absurd (ne refl)
initialize_buffer-refused sdk accounts first c buffer (State.buffer o) eb es ne = rw (eb, es)
initialize_buffer-refused sdk accounts first c buffer (State.program k) eb es ne = rw (eb, es)
initialize_buffer-refused sdk accounts first c buffer (State.program_data n o) eb es ne =
    rw (eb, es)

-- InitializeBuffer on an uninitialised account with room for the metadata succeeds: the account is
-- then a Buffer whose authority is the second account. Nothing else changes: not the data behind
-- the metadata, the lamports or another account. A second InitializeBuffer is refused.
pub initialize_buffer-Initialized :
    (sdk : Sdk) (accounts : List KeyedAccount) (first : ℕ) (c : InvokeContext)
    (buffer authority : KeyedAccount)
    → IsStateCodec sdk
    → keyed_account_at_index accounts first ≡ ok buffer
    → keyed_account_at_index accounts (first + 1) ≡ ok authority
    → state_of sdk buffer c ≡ ok State.uninitialized
    → 37 ≤ length (c.cells buffer.cell).data_bytes
    → Initialized sdk accounts first buffer authority c
initialize_buffer-Initialized sdk accounts first c buffer authority codec eb ea es room =
    let s = State.buffer (some authority.unsigned_key) in
    let old = c.cells buffer.cell in
    let (d, e) = codec.set_state_fits s old.data_bytes room in
    let a : Account = record old { data_bytes = d } in
    let after : InvokeContext = record c { cells = update c.cells buffer.cell a } in
    let state_now : sdk.state (after.cells buffer.cell).data_bytes ≡ ok s =
      rw (==_refl buffer.cell) (codec.state-set_state s old.data_bytes d e) in
    record {
      c' = after;
      runs =
          initialize_buffer-runs sdk accounts first c buffer authority a eb ea es
            (ap (λ (r : Outcome Bytes). r >>= λ d. ok (record old { data_bytes = d })) e);
      state_now = state_now;
      length_kept = rw (==_refl buffer.cell) (codec.length-set_state s old.data_bytes d e);
      behind_kept = rw (==_refl buffer.cell) (codec.drop-set_state s old.data_bytes d e);
      lamports_kept = rw (==_refl buffer.cell);
      others_kept = λ q ne. rw (==_ne buffer.cell q (λ same. ne (sym same)));
      not_again =
          initialize_buffer-refused sdk accounts first after buffer s eb state_now (λ h. cc);
    }
