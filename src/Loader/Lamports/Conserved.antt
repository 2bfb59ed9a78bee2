-- ===== src/Loader/Lamports/Conserved.antt =====
-- No handler of the upgradeable loader creates or destroys lamports.
use solana_sdk_sample.Base.{ℕ, ◌+◌, ◌<◌, ◌≡◌, refl, subst, ◌∙◌, Bool, Option, List, arith}
use solana_sdk_sample.Instruction.{Call}
use solana_sdk_sample.Runtime.Outcome.{Outcome, ok, err, panic}
use solana_sdk_sample.Runtime.Account.{
  Bytes, Pubkey, KeyedAccount, InvokeContext, keyed_account_at_index,
}
use solana_sdk_sample.Runtime.Action.Triple.{
  Keeps, After, Triple-lift, Triple-reads_bind, Triple-lift_bind, Triple-bind, Triple-when,
}
use solana_sdk_sample.Runtime.Sdk.{Sdk}
use solana_sdk_sample.Runtime.Sdk.Laws.{IsCheckedAdd}
use solana_sdk_sample.State
use solana_sdk_sample.State.{UpgradeableLoaderState}
use solana_sdk_sample.Loader.Accounts.{state_of}
use solana_sdk_sample.Loader.Buffer
use solana_sdk_sample.Loader.Buffer.{write_program_data, initialize_buffer}
use solana_sdk_sample.Loader.Authority.{set_authority}
use solana_sdk_sample.Loader.Close.{common_close_account, check_program, close_by_state, close}
use solana_sdk_sample.Loader.Deploy.{DeployAccounts, Lengths}
use solana_sdk_sample.Loader.Deploy.Commit.{create_programdata, record_program}
use solana_sdk_sample.Loader.Lamports.{AllBelow, cell_below, IsBalanced}
use solana_sdk_sample.Loader.Lamports.Steps.{
  Holds, Holds-same_lamports, Holds-set_state_of, Holds-drain, Holds-copy_program,
  Holds-set_executable,
}

module _ (n sum : ℕ) (accounts : List KeyedAccount) (below : AllBelow n accounts) (sdk : Sdk)
    (law : IsCheckedAdd sdk) where
  abbrev pub P : InvokeContext → Type 0
  P = Holds n sum accounts

  pub Holds-accounts :
      (c : InvokeContext) (found : List KeyedAccount)
      → P c
      → c.keyed_accounts ≡ ok found
      → found ≡ accounts
  Holds-accounts c found h e = cc (h.same_accounts)

  pub Holds-initialize_buffer : (first : ℕ) → Keeps P (initialize_buffer sdk accounts first)
  unfolding initialize_buffer
  Holds-initialize_buffer first = Triple-lift_bind _ _ λ b eb.
      Triple-reads_bind (state_of sdk b) _ λ c h s es. Triple-lift_bind _ _ λ _ _.
        Triple-lift_bind _ _
          λ a ea. Holds-set_state_of n sum accounts sdk b _ (cell_below n accounts first b below eb)

  Holds-write_program_data :
      (first offset : ℕ) (bytes : Bytes) → Keeps P (write_program_data first offset bytes)
  unfolding write_program_data
  Holds-write_program_data first offset bytes =
      Triple-reads_bind (λ c. c.keyed_accounts) _
        λ c h found e. Triple-lift_bind _ _ λ p ep.
          Holds-same_lamports n sum accounts p.cell _
            (cell_below n accounts first p below
              (subst (λ l. keyed_account_at_index l first ≡ ok p) (Holds-accounts c found h e) ep))
            (λ x y w. ground arith)

  pub Holds-write :
      (first offset : ℕ) (bytes : Bytes) → Keeps P (Buffer.write sdk accounts first offset bytes)
  unfolding Buffer.write
  Holds-write first offset bytes = Triple-lift_bind _ _ λ b eb. Triple-lift_bind _ _ λ a ea.
      Triple-reads_bind (state_of sdk b) _ λ c h s es.
        Triple-lift_bind _ _
          λ _ _. Triple-lift_bind _ _ λ o _. Holds-write_program_data first (o + offset) bytes

  pub Holds-set_authority : (first : ℕ) → Keeps P (set_authority sdk accounts first)
  unfolding set_authority
  Holds-set_authority first = Triple-lift_bind _ _ λ a ea. Triple-lift_bind _ _ λ p ep.
      Triple-reads_bind (state_of sdk a) _ λ c h s es.
        Triple-lift_bind _ _ λ s' _.
          Holds-set_state_of n sum accounts sdk a s' (cell_below n accounts first a below ea)

  Holds-common_close_account :
      (o : Option Pubkey) (a closed recipient : KeyedAccount)
      → closed.cell < n
      → recipient.cell < n
      → Keeps P (common_close_account sdk o a closed recipient)
  unfolding common_close_account
  Holds-common_close_account o a closed recipient x y = Triple-lift_bind _ _ λ _ _.
      Triple-bind _ _ (Holds-drain n sum accounts sdk closed recipient law x y)
        λ _. Holds-set_state_of n sum accounts sdk closed State.uninitialized x

  Holds-check_program :
      (program closed : KeyedAccount) (id : Pubkey) → Keeps P (check_program sdk program closed id)
  unfolding check_program
  Holds-check_program program closed id = Triple-lift_bind _ _ λ _ _.
      Triple-reads_bind _ _ λ c h o _. Triple-lift_bind _ _ λ _ _.
        Triple-reads_bind (state_of sdk program) _
          λ c' h' s es. Triple-lift_bind _ _ λ address _. Triple-lift _

  Holds-close_by_state :
      (s : UpgradeableLoaderState) (first : ℕ) (id : Pubkey) (closed recipient : KeyedAccount)
      → closed.cell < n
      → recipient.cell < n
      → Keeps P (close_by_state sdk s accounts first id closed recipient)
  unfolding close_by_state
  Holds-close_by_state State.uninitialized first id closed recipient x y =
      Holds-drain n sum accounts sdk closed recipient law x y
  Holds-close_by_state (State.buffer o) first id closed recipient x y =
      Triple-lift_bind _ _ λ a _. Holds-common_close_account o a closed recipient x y
  Holds-close_by_state (State.program_data slot o) first id closed recipient x y =
      Triple-lift_bind _ _ λ p _.
        Triple-bind _ _ (Holds-check_program p closed id)
          λ _. Triple-lift_bind _ _ λ a _. Holds-common_close_account o a closed recipient x y
  Holds-close_by_state (State.program k) first id closed recipient x y = Triple-lift _

  pub Holds-close : (first : ℕ) (id : Pubkey) → Keeps P (close sdk accounts first id)
  unfolding close
  Holds-close first id = Triple-lift_bind _ _ λ closed ec. Triple-lift_bind _ _ λ recipient er.
      Triple-lift_bind _ _ λ _ _. Triple-reads_bind (state_of sdk closed) _ λ c h s es.
        Holds-close_by_state s first id closed recipient
          (cell_below n accounts first closed below ec)
          (cell_below n accounts (first + 1) recipient below er)

  module _ (balanced : IsBalanced sdk) where
    Holds-native_invoke :
        (call : Call) (signers : List Pubkey) → Keeps P (sdk.native_invoke call signers)
    Holds-native_invoke call signers = record {
      at = λ c h. go c h (sdk.native_invoke call signers c) refl;
    }
      where
        go :
            (c : InvokeContext)
            → P c
            → (r : Outcome (Unit {0}) × InvokeContext) → sdk.native_invoke call signers c ≡ r
            → After P r
        go c h (ok tt, c') e = record {
          lamports_total =
              balanced.keeps_total call signers c c' accounts n h.same_accounts below e
              ∙ h.lamports_total;
          same_accounts = balanced.keeps_accounts call signers c c' e ∙ h.same_accounts;
        }
        go c h (err x, c') e = tt
        go c h (panic, c') e = tt

    pub Holds-create_programdata :
        (d : DeployAccounts) (l : Lengths) (bump : ℕ) (predrain : Bool) (id : Pubkey)
        → d.buffer.cell < n
        → d.payer.cell < n
        → Keeps P (create_programdata sdk d l bump predrain id)
    unfolding create_programdata
    Holds-create_programdata d l bump predrain id b p =
        Triple-bind _ _
          (Triple-when predrain _ λ _. Holds-drain n sum accounts sdk d.buffer d.payer law b p)
          λ _.
            Triple-reads_bind (λ c. c.caller) _
              λ c h caller _. Triple-lift_bind _ _ λ signers _. Holds-native_invoke _ signers

    pub Holds-record_program :
        (d : DeployAccounts) (l : Lengths) (predrain : Bool) (first : ℕ)
        → Keeps P (record_program sdk d l predrain accounts first)
    unfolding record_program
    Holds-record_program d l predrain first = Triple-lift_bind _ _ λ payer e0.
        Triple-lift_bind _ _ λ programdata e1. Triple-lift_bind _ _ λ program e2.
          Triple-lift_bind _ _ λ buffer e3.
            let below0 = cell_below n accounts first payer below e0 in
            let below1 = cell_below n accounts (first + 1) programdata below e1 in
            let below2 = cell_below n accounts (first + 2) program below e2 in
            let below3 = cell_below n accounts (first + 3) buffer below e3 in
            Triple-bind _ _ (Holds-set_state_of n sum accounts sdk programdata _ below1) λ _.
              Triple-bind _ _
                (Holds-copy_program n sum accounts sdk programdata buffer _ _ _ below1)
                λ _. Triple-bind _ _ (Holds-set_state_of n sum accounts sdk program _ below2) λ _.
                  Triple-bind _ _ (Holds-set_executable n sum accounts sdk program below2) λ _.
                    Triple-when _ _
                      λ _. Holds-drain n sum accounts sdk buffer payer law below3 below0
