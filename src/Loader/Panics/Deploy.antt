-- ===== src/Loader/Panics/Deploy.antt =====
-- DeployWithMaxDataLen does not panic.
use solana_sdk_sample.Base.{
  ℕ, ◌+◌, ◌-◌, ◌^◌, ◌≤◌, ◌<◌, ◌∷◌, ◌≡◌, ◌≢◌, refl, sym, ap, subst, ◌∙◌, Bool, not, List, [], arith,
  length,
}
use solana_sdk_sample.Runtime.Outcome.{Outcome, ok, err, panic}
use solana_sdk_sample.Runtime.Account.{
  Bytes, Pubkey, KeyedAccount, InvokeContext, keyed_account_at_index,
}
use solana_sdk_sample.Runtime.Action.{◌>>=◌, reads}
use solana_sdk_sample.Runtime.Action.At.{At}
use solana_sdk_sample.Runtime.Action.Calm.{
  Calm, CalmAfter, Calm-lift_bind, Calm-reads_bind, Calm-reads_at, Calm-bind, Calm-weaken,
  Calm-strengthen,
}
use solana_sdk_sample.Runtime.Sdk.{Sdk, Seed}
use solana_sdk_sample.Runtime.Sdk.Laws.{IsStateCodec}
use solana_sdk_sample.Loader.Accounts.{set_executable}
use solana_sdk_sample.Loader.Executor.{create_executor}
use solana_sdk_sample.Loader.Deploy.{
  DeployAccounts, Lengths, deploy_accounts, verify_program, verify_buffer, derive_bump,
  create_instruction,
}
use solana_sdk_sample.Loader.Deploy.Commit.{
  create_programdata, derived_signer, record_program, deploy, add_executor,
}
use solana_sdk_sample.Loader.Frozen.{IsCreateAccount}
use solana_sdk_sample.Loader.Frozen.Deploy.{DeployIndices, deploy_accounts-Indices}
use solana_sdk_sample.Loader.Panics.{IsTotal}
use solana_sdk_sample.Loader.Panics.Checks.{create_executor-returns}
use solana_sdk_sample.Loader.Panics.Whole.{Calm-known}
use solana_sdk_sample.Loader.Panics.Fitted.{
  Fitted, Fitted-modify, Fitted-drain, Fitted-set_state, Fitted-when, Fitted-add_executor,
  Fitted-copy_program,
}

-- Keyed accounts under one key are one account.
abbrev pub OneCell : List KeyedAccount → Type 0
OneCell accounts =
    (i j : ℕ) (x y : KeyedAccount)
    → keyed_account_at_index accounts i ≡ ok x
    → keyed_account_at_index accounts j ≡ ok y
    → x.unsigned_key ≡ y.unsigned_key
    → x.cell ≡ y.cell

-- The invocation of CreateAccount returns, and so does the derivation of an address. The account that
-- is made has the length that was asked for, and the caller is as before.
pub record MakesSpace (sdk : Sdk) : Type 0 where
  pub derive_returns : (seeds : List Seed) (k : Pubkey) → sdk.create_program_address seeds k ≢ panic
  pub invoke_returns :
      (d : DeployAccounts) (len : ℕ) (id : Pubkey) (signers : List Pubkey) (c : InvokeContext)
      (accounts : List KeyedAccount)
      → c.keyed_accounts ≡ ok accounts
      → (sdk.native_invoke (create_instruction sdk d len id) signers c).0 ≢ panic
  pub makes_space :
      (d : DeployAccounts) (len : ℕ) (id : Pubkey) (signers : List Pubkey) (c c' : InvokeContext)
      (accounts : List KeyedAccount) (i : ℕ) (a : KeyedAccount)
      → sdk.native_invoke (create_instruction sdk d len id) signers c ≡ (ok tt, c')
      → c.keyed_accounts ≡ ok accounts
      → OneCell accounts
      → keyed_account_at_index accounts i ≡ ok a
      → a.unsigned_key ≡ d.programdata.unsigned_key
      → length (c'.cells a.cell).data_bytes ≡ len
  pub keeps_caller :
      (d : DeployAccounts) (len : ℕ) (id : Pubkey) (signers : List Pubkey) (c c' : InvokeContext)
      → sdk.native_invoke (create_instruction sdk d len id) signers c ≡ (ok tt, c')
      → c'.caller ≡ c.caller

checked_lengths :
    (sdk : Sdk) (d : DeployAccounts) (l : Lengths) (max_data_len : ℕ) (c : InvokeContext)
    → length (c.cells d.buffer.cell).data_bytes < 2 ^ 63
    → verify_buffer sdk d max_data_len c ≡ ok l
    → let m = length (c.cells d.buffer.cell).data_bytes in
      (l.buffer_data_offset ≡ 37)
      × (l.programdata_data_offset ≡ 45)
      × (l.buffer_data_len ≡ m - 37)
      × (38 ≤ m)
      × (45 + (m - 37) ≤ l.programdata_len)
unfolding verify_buffer
checked_lengths sdk d l max_data_len c short e =
    (ground arith, ground arith, ground arith, ground arith, ground (arith, short))

module _ (sdk : Sdk) (total : IsTotal sdk) (codec : IsStateCodec sdk) (create : IsCreateAccount sdk)
    (space : MakesSpace sdk) (accounts : List KeyedAccount) (one : OneCell accounts)
    (first : ℕ) where
  deploy_accounts-returns : (c : InvokeContext) → deploy_accounts sdk accounts first c ≢ panic
  unfolding deploy_accounts
  deploy_accounts-returns c e = grind (arith, total.rent_returns, total.clock_returns)

  module _ (d : DeployAccounts) (at : DeployIndices accounts first d) where
    verify_program-returns : (c : InvokeContext) → verify_program sdk d c ≢ panic
    unfolding verify_program
    verify_program-returns c e =
        ground (arith, total.state_returns (c.cells d.program.cell).data_bytes)

    verify_buffer-returns :
        (max_data_len : ℕ) (c : InvokeContext) → verify_buffer sdk d max_data_len c ≢ panic
    unfolding verify_buffer
    verify_buffer-returns max_data_len c e =
        ground (arith, total.state_returns (c.cells d.buffer.cell).data_bytes)

    derive_bump-returns : (id : Pubkey) → derive_bump sdk d id ≢ panic
    unfolding derive_bump
    derive_bump-returns id e = ground arith

    module _ (n m : ℕ) (fits : 45 + (m - 37) ≤ n) (has_program : 38 ≤ m) where
      abbrev Before : InvokeContext → Type 0
      Before = Fitted sdk total codec accounts d.buffer d.buffer m m

      abbrev Made : InvokeContext → Type 0
      Made = Fitted sdk total codec accounts d.programdata d.buffer n m

      nonempty : (xs : Bytes) → length xs ≡ m → xs ≢ []
      nonempty xs size e = absurd (omega (arith, size, has_program, ap length e))

      Made-native_invoke :
          (id : Pubkey) (signers : List Pubkey) (c : InvokeContext)
          (r : Outcome (Unit {0}) × InvokeContext)
          → Before c
          → sdk.native_invoke (create_instruction sdk d n id) signers c ≡ r
          → CalmAfter Made r
      Made-native_invoke id signers c (ok tt, c') h e = record {
        given = create.keeps_accounts d n id signers c c' e ∙ h.given;
        has_caller =
            subst (λ o. o ≢ panic) (sym (space.keeps_caller d n id signers c c' e)) h.has_caller;
        size_p =
            space.makes_space d n id signers c c' accounts (first + 1) d.programdata e h.given one
              at.at_programdata refl;
        size_b =
            ap length
              (create.keeps_data d n id signers c c' d.buffer.cell e
                (nonempty _ h.size_b)).data_same
            ∙ h.size_b;
      }
      Made-native_invoke id signers c (err x, c') h e = tt
      Made-native_invoke id signers c (panic, c') h e =
          space.invoke_returns d n id signers c accounts h.given
            (ap (λ (r : Outcome (Unit {0}) × InvokeContext). r.0) e)

      derived_signer-returns :
          (bump : ℕ) (caller : Pubkey)
          → derived_signer sdk d.program.unsigned_key bump caller ≢ panic
      derived_signer-returns bump caller e = ground (
        arith,
        space.derive_returns (Seed.key d.program.unsigned_key ∷ Seed.bump bump ∷ []) caller,
      )

      Calm-create_programdata :
          (l : Lengths) (bump : ℕ) (predrain : Bool) (id : Pubkey)
          → l.programdata_len ≡ n
          → Calm Before (create_programdata sdk d l bump predrain id) Made
      unfolding create_programdata
      Calm-create_programdata l bump predrain id len =
          Calm-bind _ _
            (Fitted-when sdk total codec accounts d.buffer d.buffer m m predrain _
              (Fitted-drain sdk total codec accounts d.buffer d.buffer m m d.buffer d.payer))
            λ _.
              Calm-reads_bind (λ c. c.caller) _ (λ c h. h.has_caller)
                λ c h caller _. Calm-lift_bind _ _ (derived_signer-returns bump caller) λ signers _.
                  record {
                    at = λ c h.
                        subst
                          (λ k.
                            CalmAfter Made
                              (sdk.native_invoke (create_instruction sdk d k id) signers c))
                          (sym len) (Made-native_invoke id signers c _ h refl);
                  }

      -- The ProgramData and Program accounts are recorded.
      Calm-record_program :
          (l : Lengths) (predrain : Bool)
          → l.programdata_data_offset ≡ 45
          → l.buffer_data_offset ≡ 37
          → l.buffer_data_len ≡ m - 37
          → Calm Made (record_program sdk d l predrain accounts first) Made
      unfolding record_program
      Calm-record_program l predrain start from len =
          let set = Fitted-set_state sdk total codec accounts d.programdata d.buffer n m in
          let copy =
            Fitted-copy_program sdk total codec accounts d.programdata d.buffer n m fits
              (omega arith) in
          Calm-known _ _ d.payer at.at_payer (
            Calm-known _ _ d.programdata at.at_programdata (
              Calm-known _ _ d.program at.at_program (
                Calm-known _ _ d.buffer at.at_buffer (
                  Calm-bind _ _ (set d.programdata _) λ _.
                    Calm-bind _ _ (rw (start, len, from) copy) λ _.
                      Calm-bind _ _ (set d.program _) λ _.
                        Calm-bind _ _
                          (Fitted-modify sdk total codec accounts d.programdata d.buffer n m
                            d.program.cell set_executable (λ c h e. cc) (λ c y h e. ground arith))
                          λ _.
                            Fitted-when sdk total codec accounts d.programdata d.buffer n m
                              (not predrain) _
                              (Fitted-drain sdk total codec accounts d.programdata d.buffer n m
                                d.buffer d.payer)))))

      -- What follows the checks.
      Calm-commit :
          (l : Lengths) (bump : ℕ) (predrain jit : Bool) (id : Pubkey)
          → (l.buffer_data_offset ≡ 37)
            × (l.programdata_data_offset ≡ 45)
            × (l.buffer_data_len ≡ m - 37)
            × (l.programdata_len ≡ n)
          → Calm Before
              (create_programdata sdk d l bump predrain id >>= λ _.
                reads (create_executor sdk (first + 3) l.buffer_data_offset jit) >>= λ x.
                add_executor d.program.unsigned_key x >>= λ _.
                reads (λ e. e.keyed_accounts) >>= λ found.
                record_program sdk d l predrain found first)
              Made
      Calm-commit l bump predrain jit id (from, start, len, size) =
          Calm-bind _ _ (Calm-create_programdata l bump predrain id size) λ _.
            Calm-reads_bind (create_executor sdk (first + 3) l.buffer_data_offset jit) _
              (λ e h.
                create_executor-returns sdk total accounts (first + 3) l.buffer_data_offset jit
                  d.buffer e h.given at.at_buffer (omega (arith, from, h.size_b, has_program)))
              λ e h x _.
                Calm-bind _ _
                  (Fitted-add_executor sdk total codec accounts d.programdata d.buffer n m
                    d.program.unsigned_key x)
                  λ _.
                    Calm-reads_bind (λ e. e.keyed_accounts) _ (λ e h p. cc (h.given, p))
                      λ e h found ef.
                        subst
                          (λ found. Calm Made (record_program sdk d l predrain found first) Made)
                          (cc (h.given, ef)) (Calm-record_program l predrain start from len)

  module _ (c : InvokeContext) (id : Pubkey) (caller : c.caller ≡ ok id)
      (given : c.keyed_accounts ≡ ok accounts)
      (short : (x : ℕ) → length (c.cells x).data_bytes < 2 ^ 63) where
    at_start :
        (d : DeployAccounts) (e : InvokeContext)
        → e ≡ c
        → Fitted sdk total codec accounts d.buffer d.buffer
            (length (c.cells d.buffer.cell).data_bytes)
            (length (c.cells d.buffer.cell).data_bytes)
            e
    at_start d e h = record {
      given = ap (λ (x : InvokeContext). x.keyed_accounts) h ∙ given;
      has_caller = λ p. cc (ap (λ (x : InvokeContext). x.caller) h, caller, p);
      size_p = ap (λ (x : InvokeContext). length (x.cells d.buffer.cell).data_bytes) h;
      size_b = ap (λ (x : InvokeContext). length (x.cells d.buffer.cell).data_bytes) h;
    }

    -- DeployWithMaxDataLen returns, or gives an error.
    pub Calm-deploy :
        (max_data_len : ℕ) (jit : Bool)
        → Calm
            (At c)
            (deploy sdk accounts first id max_data_len jit)
            (λ e. e.keyed_accounts ≡ ok accounts)
    unfolding deploy
    Calm-deploy max_data_len jit =
        Calm-reads_at (deploy_accounts sdk accounts first) _ (deploy_accounts-returns c) λ d ed.
          let at = deploy_accounts-Indices sdk accounts first c d ed in
          Calm-reads_at (verify_program sdk d) _ (verify_program-returns d at c) λ _ _.
            Calm-reads_at (verify_buffer sdk d max_data_len) _
              (verify_buffer-returns d at max_data_len c)
              λ l el. Calm-lift_bind _ _ (derive_bump-returns d at id) λ bump _.
                Calm-reads_at _ _ (λ p. cc)
                  λ predrain _.
                    let (from, start, len, has_program, fits) =
                      checked_lengths sdk d l max_data_len c (short _) el in
                    Calm-strengthen _
                      (Calm-weaken _
                        (Calm-commit d at l.programdata_len
                          (length (c.cells d.buffer.cell).data_bytes) fits has_program l bump
                          predrain jit id (from, start, len, refl))
                        (at_start d))
                      (λ e h. h.given)
