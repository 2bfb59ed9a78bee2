-- ===== src/Loader/Close/Laws.antt =====
-- What Close leaves, and who may close.
use solana_sdk_sample.Base.{ℕ, ◌+◌, ◌≡◌, ◌≢◌, ap, sym, subst, ◌∙◌, true, Option, some, List, arith}
use solana_sdk_sample.Runtime.Outcome.{ok}
use solana_sdk_sample.Runtime.Account.{
  Account, Pubkey, KeyedAccount, InvokeContext, keyed_account_at_index, update_self, update_ne,
}
use solana_sdk_sample.Runtime.Action.{lamports_while, lift}
use solana_sdk_sample.Runtime.Action.At.{
  At, At-known, At-reads, At-lift, At-modify, At-modify_bind, At-ok,
}
use solana_sdk_sample.Runtime.Action.Triple.{
  Triple, Keeps, Triple-bind, Triple-lift, Triple-lift_bind, Triple-strengthen,
  Triple-modify_account,
}
use solana_sdk_sample.Runtime.Sdk.{Sdk}
use solana_sdk_sample.Runtime.Sdk.Laws.{IsCheckedAdd, IsStateCodec}
use solana_sdk_sample.State
use solana_sdk_sample.State.{UpgradeableLoaderState}
use solana_sdk_sample.Loader.Accounts.{
  check_authority, state_of, with_state, set_lamports, credit, set_state_of,
}
use solana_sdk_sample.Loader.Authority.Laws.{authority_of, with_state-stored}
use solana_sdk_sample.Loader.Close.{
  drain, common_close_account, check_program, close_by_state, close,
}
use solana_sdk_sample.Loader.Lamports.Steps.{credit-lamports}

-- All lamports of `closed` are with `recipient`, which is another account.
pub record Drained (closed recipient : KeyedAccount) (c c' : InvokeContext) : Type 0 where
  pub two_accounts : closed.cell ≢ recipient.cell
  pub emptied : (c'.cells closed.cell).lamports ≡ 0
  pub received :
      (c'.cells recipient.cell).lamports
      ≡ (c.cells recipient.cell).lamports + (c.cells closed.cell).lamports
  pub recipient_data : (c'.cells recipient.cell).data_bytes ≡ (c.cells recipient.cell).data_bytes
  pub closed_data : (c'.cells closed.cell).data_bytes ≡ (c.cells closed.cell).data_bytes
  pub others_kept : (q : ℕ) → q ≢ closed.cell → q ≢ recipient.cell → c'.cells q ≡ c.cells q

pub drain-Drained :
    (sdk : Sdk) (closed recipient : KeyedAccount) (c : InvokeContext)
    → IsCheckedAdd sdk
    → Triple (At c) (drain sdk closed recipient) (Drained closed recipient c)
unfolding drain
drain-Drained sdk closed recipient c law =
    At-reads (lamports_while recipient.cell closed.cell) _ λ amount ea.
      At-modify_bind recipient.cell (credit sdk amount) _ λ a eb.
        At-modify closed.cell (set_lamports 0) λ b ec. record {
          two_accounts = λ e. ground arith;
          emptied = ground arith;
          received = ground (arith, credit-lamports sdk amount (c.cells recipient.cell) a law eb);
          recipient_data = ground arith;
          closed_data = ground arith;
          others_kept = λ q n m. ground arith;
        }

-- Unless the account is uninitialised, its authority is the account at the index, and has signed.
abbrev pub Authorized : UpgradeableLoaderState → List KeyedAccount → ℕ → Type 0
Authorized State.uninitialized accounts i = Unit
Authorized s accounts i =
    (authority : KeyedAccount) × (keyed_account_at_index accounts i ≡ ok authority)
    × (authority_of s ≡ some authority.unsigned_key)
    × (authority.is_signer ≡ true)

pub check_authority-ok :
    (o : Option Pubkey) (a : KeyedAccount)
    → check_authority o a ≡ ok tt
    → (o ≡ some a.unsigned_key) × (a.is_signer ≡ true)
unfolding check_authority
check_authority-ok o a e = ground arith

-- What is left of a closed account.
pub record Closed (sdk : Sdk) (closed recipient : KeyedAccount) (c c' : InvokeContext)
    : Type 0 where
  pub two_accounts : closed.cell ≢ recipient.cell
  pub emptied : (c'.cells closed.cell).lamports ≡ 0
  pub received :
      (c'.cells recipient.cell).lamports
      ≡ (c.cells recipient.cell).lamports + (c.cells closed.cell).lamports
  pub state_now : state_of sdk closed c' ≡ ok State.uninitialized
  pub others_kept : (q : ℕ) → q ≢ closed.cell → q ≢ recipient.cell → c'.cells q ≡ c.cells q

Closed-set_state_of :
    (sdk : Sdk) (closed recipient : KeyedAccount) (c : InvokeContext)
    → IsStateCodec sdk
    → Triple
        (Drained closed recipient c)
        (set_state_of sdk closed State.uninitialized)
        (Closed sdk closed recipient c)
Closed-set_state_of sdk closed recipient c codec =
    Triple-modify_account closed.cell (with_state sdk State.uninitialized) λ d b h eb.
      let (stored, same) =
        with_state-stored sdk State.uninitialized (d.cells closed.cell) b codec eb in
      record {
        two_accounts = h.two_accounts;
        emptied = ground (arith, h.emptied);
        received = ground (arith, h.received, h.two_accounts);
        state_now =
            subst (λ (y : Account). sdk.state y.data_bytes ≡ ok State.uninitialized)
              (sym (update_self d.cells closed.cell b)) stored;
        others_kept =
            λ q n m. update_ne d.cells closed.cell q b (λ w. n (sym w)) ∙ h.others_kept q n m;
      }

-- Close, from the state `s` of the account: the account is emptied, and its authority has signed.
module _ (sdk : Sdk) (closed recipient : KeyedAccount) (c : InvokeContext) (law : IsCheckedAdd sdk)
    (codec : IsStateCodec sdk) where
  ClosedBy : UpgradeableLoaderState → List KeyedAccount → ℕ → InvokeContext → Type 0
  ClosedBy s accounts i d = Closed sdk closed recipient c d × Authorized s accounts i

  common_close_account-Closed :
      (o : Option Pubkey) (authority : KeyedAccount) (X : Type 0)
      → ((o ≡ some authority.unsigned_key) × (authority.is_signer ≡ true) → X)
      → Triple
          (At c)
          (common_close_account sdk o authority closed recipient)
          (λ d. Closed sdk closed recipient c d × X)
  unfolding common_close_account
  common_close_account-Closed o authority X so =
      At-lift (check_authority o authority) _ λ _ allowed.
        Triple-bind _ _ (drain-Drained sdk closed recipient c law) λ _.
          Triple-strengthen _ (Closed-set_state_of sdk closed recipient c codec)
            (λ d h. (h, so (check_authority-ok o authority allowed)))

  check_program-At :
      (program : KeyedAccount) (id : Pubkey) → Keeps (At c) (check_program sdk program closed id)
  unfolding check_program
  check_program-At program id = Triple-lift_bind _ _ λ _ _. At-reads _ _ λ _ _.
      At-lift _ _ λ _ _. At-reads (state_of sdk program) _ λ _ _. At-lift _ _ λ _ _. Triple-lift _

  close_by_state-Closed :
      (s : UpgradeableLoaderState) (accounts : List KeyedAccount) (first : ℕ) (id : Pubkey)
      → state_of sdk closed c ≡ ok s
      → Triple
          (At c)
          (close_by_state sdk s accounts first id closed recipient)
          (ClosedBy s accounts (first + 2))
  unfolding close_by_state ClosedBy lift
  close_by_state-Closed State.uninitialized accounts first id es =
      Triple-strengthen _ (drain-Drained sdk closed recipient c law) λ d h. (
        record {
          two_accounts = h.two_accounts;
          emptied = h.emptied;
          received = h.received;
          state_now = ap sdk.state h.closed_data ∙ es;
          others_kept = h.others_kept;
        },
        tt,
      )
  close_by_state-Closed (State.buffer o) accounts first id es =
      At-lift _ _
        λ authority ea. common_close_account-Closed o authority _ (λ h. (authority, ea, h.0, h.1))
  close_by_state-Closed (State.program_data slot o) accounts first id es = At-lift _ _ λ p _.
      Triple-bind _ _ (check_program-At p id) λ _.
        At-lift _ _
          λ authority ea. common_close_account-Closed o authority _ (λ h. (authority, ea, h.0, h.1))
  close_by_state-Closed (State.program k) accounts first id es = record { at = λ d h. tt }

-- A successful Close empties an account into another one and leaves it uninitialised. Unless the
-- account was uninitialised, its authority is the third account, which signed. No account but the
-- two changes.
pub close-Closed :
    (sdk : Sdk) (accounts : List KeyedAccount) (first : ℕ) (id : Pubkey) (c c' : InvokeContext)
    (closed recipient : KeyedAccount) (s : UpgradeableLoaderState)
    → IsCheckedAdd sdk
    → IsStateCodec sdk
    → keyed_account_at_index accounts first ≡ ok closed
    → keyed_account_at_index accounts (first + 1) ≡ ok recipient
    → state_of sdk closed c ≡ ok s
    → close sdk accounts first id c ≡ (ok tt, c')
    → Closed sdk closed recipient c c' × Authorized s accounts (first + 2)
unfolding close ClosedBy
close-Closed sdk accounts first id c c' closed recipient s law codec ec er es e =
    At-ok _ (ClosedBy sdk closed recipient c law codec s accounts (first + 2)) c c' tt
      (At-known _ _ closed ec (
        At-known _ _ recipient er (
          At-lift _ _ λ _ _. At-reads (state_of sdk closed) _ λ t et.
            subst
              (λ t.
                Triple (At c) (close_by_state sdk t accounts first id closed recipient)
                  (ClosedBy sdk closed recipient c law codec s accounts (first + 2)))
              (cc)
              (close_by_state-Closed sdk closed recipient c law codec s accounts first id es))))
      e
