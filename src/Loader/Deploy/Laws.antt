-- ===== src/Loader/Deploy/Laws.antt =====
-- What DeployWithMaxDataLen has checked, and the creation of the ProgramData account.
use solana_sdk_sample.Base.{
  ℕ, suc, ◌+◌, ◌-◌, ◌≤◌, ◌≡◌, ◌≢◌, refl, ap, subst, ◌∙◌, Bool, true, some, List, [], ◌∷◌, arith,
  length,
}
use solana_sdk_sample.Runtime.Outcome.{Outcome, ok, err, panic}
use solana_sdk_sample.Runtime.Account.{
  Account, Bytes, Pubkey, KeyedAccount, InvokeContext, BpfExecutor, keyed_account_at_index,
}
use solana_sdk_sample.Runtime.Action.{modify_account, lamports_while}
use solana_sdk_sample.Runtime.Action.Triple.{
  Triple, Keeps, After, Triple-reads_bind, Triple-lift_bind, Triple-bind, Triple-when,
  Triple-modify_account,
}
use solana_sdk_sample.Runtime.Sdk.{Sdk, Seed}
use solana_sdk_sample.State
use solana_sdk_sample.Loader.Accounts.{state_of, credit, set_lamports}
use solana_sdk_sample.Loader.Close.{drain}
use solana_sdk_sample.Loader.Deploy.{
  DeployAccounts, Lengths, verify_program, verify_buffer, derive_bump, create_instruction,
}
use solana_sdk_sample.Loader.Deploy.Commit.{create_programdata, add_executor}
use solana_sdk_sample.Loader.Frozen.{IsCreateAccount}

-- What Deploy has checked before it changes anything.
pub record MayDeploy (sdk : Sdk) (d : DeployAccounts) (id : Pubkey) (max_data_len : ℕ)
    (c : InvokeContext) : Type 0 where
  pub signed : d.authority.is_signer ≡ true
  pub buffer_authority : state_of sdk d.buffer c ≡ ok (State.buffer (some d.authority.unsigned_key))
  pub program_is_new : state_of sdk d.program c ≡ ok State.uninitialized
  pub program_rent_exempt :
      d.rent.minimum_balance (length (c.cells d.program.cell).data_bytes)
      ≤ (c.cells d.program.cell).lamports
  pub program_has_room : 36 ≤ length (c.cells d.program.cell).data_bytes
  pub buffer_not_empty : 38 ≤ length (c.cells d.buffer.cell).data_bytes
  pub program_fits : length (c.cells d.buffer.cell).data_bytes - 37 ≤ max_data_len
  pub address_is_derived :
      (sdk.find_program_address (Seed.key d.program.unsigned_key ∷ []) id).0
      ≡ d.programdata.unsigned_key

pub verified :
    (sdk : Sdk) (d : DeployAccounts) (l : Lengths) (id : Pubkey) (max_data_len bump : ℕ)
    (c : InvokeContext)
    → verify_program sdk d c ≡ ok tt
    → verify_buffer sdk d max_data_len c ≡ ok l
    → derive_bump sdk d id ≡ ok bump
    → MayDeploy sdk d id max_data_len c
unfolding verify_program verify_buffer derive_bump
verified sdk d l id max_data_len bump c ep eb ed = record {
  signed = ground arith;
  buffer_authority = ground arith;
  program_is_new = ground arith;
  program_rent_exempt = ground arith;
  program_has_room = ground arith;
  buffer_not_empty = ground arith;
  program_fits = ground arith;
  address_is_derived = ground arith;
}

pub lengths_offsets :
    (sdk : Sdk) (d : DeployAccounts) (l : Lengths) (max_data_len : ℕ) (c : InvokeContext)
    → verify_buffer sdk d max_data_len c ≡ ok l
    → (l.programdata_data_offset ≡ 45) × (l.buffer_data_offset ≡ 37)
unfolding verify_buffer
lengths_offsets sdk d l max_data_len c e = (ground arith, ground arith)

module _ (sdk : Sdk) (accounts : List KeyedAccount) (d : DeployAccounts) (c : InvokeContext) where
  -- The data of the buffer and of the program are those at the start.
  pub record Intact (e : InvokeContext) : Type 0 where
    pub buffer_data : (e.cells d.buffer.cell).data_bytes ≡ (c.cells d.buffer.cell).data_bytes
    pub program_data : (e.cells d.program.cell).data_bytes ≡ (c.cells d.program.cell).data_bytes
    pub same_accounts : e.keyed_accounts ≡ ok accounts

  Intact-modify :
      (cell : ℕ) (f : Account → Outcome Account)
      → ((x y : Account) → f x ≡ ok y → y.data_bytes ≡ x.data_bytes)
      → Keeps Intact (modify_account cell f)
  Intact-modify cell f same = Triple-modify_account cell f λ e a h k. record {
    buffer_data = ground (arith, same (e.cells cell) a k, at e d.buffer, h.buffer_data);
    program_data = ground (arith, same (e.cells cell) a k, at e d.program, h.program_data);
    same_accounts = h.same_accounts;
  }
    where
      at : (e : InvokeContext) (x : KeyedAccount) → cell ≡ x.cell → e.cells cell ≡ e.cells x.cell
      at e x same = ap e.cells same

  Intact-drain : (source recipient : KeyedAccount) → Keeps Intact (drain sdk source recipient)
  unfolding drain
  Intact-drain source recipient =
      Triple-reads_bind (lamports_while recipient.cell source.cell) _ λ e h amount _.
        Triple-bind _ _ (Intact-modify recipient.cell (credit sdk amount) (λ x y k. ground arith))
          λ _. Intact-modify source.cell (set_lamports 0) (λ x y k. ground arith)

  pub Intact-add_executor : (k : Pubkey) (x : BpfExecutor) → Keeps Intact (add_executor k x)
  unfolding add_executor
  Intact-add_executor k x = record {
    at = λ e h. record {
      buffer_data = h.buffer_data;
      program_data = h.program_data;
      same_accounts = h.same_accounts;
    };
  }

  -- The new account is not the program's.
  abbrev pub Created : InvokeContext → Type 0
  Created e = Intact e × (d.programdata.cell ≢ d.program.cell)

  module _ (create : IsCreateAccount sdk) (first : ℕ)
      (at : keyed_account_at_index accounts (first + 1) ≡ ok d.programdata)
      (program_has_room : 36 ≤ length (c.cells d.program.cell).data_bytes)
      (buffer_not_empty : 38 ≤ length (c.cells d.buffer.cell).data_bytes) where
    not_empty : (n : ℕ) (xs : Bytes) → suc n ≤ length xs → xs ≢ []
    not_empty n xs h e = absurd (omega (arith, ap length e))

    Created-native_invoke :
        (len : ℕ) (id : Pubkey) (signers : List Pubkey)
        → Triple Intact (sdk.native_invoke (create_instruction sdk d len id) signers) Created
    Created-native_invoke len id signers = record {
      at = λ e h. go e h (sdk.native_invoke (create_instruction sdk d len id) signers e) refl;
    }
      where
        program_nonempty : (e : InvokeContext) → Intact e → (e.cells d.program.cell).data_bytes ≢ []
        program_nonempty e h =
            not_empty 35 _ (omega (arith, ap length h.program_data, program_has_room))

        go :
            (e : InvokeContext)
            → Intact e
            → (r : Outcome (Unit {0}) × InvokeContext)
            → sdk.native_invoke (create_instruction sdk d len id) signers e ≡ r
            → After Created r
        go e h (ok tt, e') k = (
          record {
            buffer_data =
                (create.keeps_data d len id signers e e' d.buffer.cell k (
                  not_empty 37 _
                    (omega (arith, ap length h.buffer_data, buffer_not_empty)))).data_same
                ∙ h.buffer_data;
            program_data =
                (create.keeps_data d len id signers e e' d.program.cell k
                  (program_nonempty e h)).data_same
                ∙ h.program_data;
            same_accounts = create.keeps_accounts d len id signers e e' k ∙ h.same_accounts;
          },
          λ same. program_nonempty e h (
              subst (λ y. (e.cells y).data_bytes ≡ []) same
                (create.new_has_no_data d len id signers e e' accounts (first + 1) d.programdata k
                  h.same_accounts at refl)),
        )
        go e h (err y, e') k = tt
        go e h (panic, e') k = tt

    pub Created-create_programdata :
        (l : Lengths) (bump : ℕ) (predrain : Bool) (id : Pubkey)
        → Triple Intact (create_programdata sdk d l bump predrain id) Created
    unfolding create_programdata
    Created-create_programdata l bump predrain id =
        Triple-bind _ _ (Triple-when predrain _ λ _. Intact-drain d.buffer d.payer) λ _.
          Triple-reads_bind (λ e. e.caller) _
            λ e h caller _.
              Triple-lift_bind _ _ λ signers _. Created-native_invoke l.programdata_len id signers
