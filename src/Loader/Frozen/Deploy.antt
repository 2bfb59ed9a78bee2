-- ===== src/Loader/Frozen/Deploy.antt =====
-- DeployWithMaxDataLen does not change a fixed account: the ProgramData account
-- that it writes had no data.
use solana_sdk_sample.Base.{ℕ, ◌+◌, ◌≡◌, ◌≢◌, refl, subst, ◌∙◌, Bool, true, List, [], arith}
use solana_sdk_sample.Runtime.Outcome.{Outcome, ok, err, panic}
use solana_sdk_sample.Runtime.Account.{
  Account, Pubkey, KeyedAccount, InvokeContext, keyed_account_at_index,
}
use solana_sdk_sample.Runtime.Action.Triple.{
  Triple, Keeps, After, Triple-reads_bind, Triple-lift_bind, Triple-bind, Triple-when,
  Triple-weaken,
}
use solana_sdk_sample.Runtime.Sdk.{Sdk}
use solana_sdk_sample.Runtime.Sdk.Laws.{IsCheckedAdd, IsStateCodec}
use solana_sdk_sample.State.{UpgradeableLoaderState}
use solana_sdk_sample.Loader.Executor.{create_executor}
use solana_sdk_sample.Loader.Deploy
use solana_sdk_sample.Loader.Deploy.{
  DeployAccounts, Lengths, deploy_accounts, derive_bump, create_instruction,
}
use solana_sdk_sample.Loader.Deploy.Commit.{create_programdata, record_program, deploy}
use solana_sdk_sample.Loader.Frozen.{is_fixed, Preserved, IsCreateAccount}
use solana_sdk_sample.Loader.Frozen.Steps.{
  Frozen, Frozen-modify_ne, Frozen-add_executor, Frozen-copy_program, Frozen-drain,
}
use solana_sdk_sample.Loader.Frozen.Commits.{other, deploy_buffer, deploy_program}

-- The accounts that Deploy finds stand at their indices.
pub record DeployIndices (accounts : List KeyedAccount) (first : ℕ) (d : DeployAccounts)
    : Type 0 where
  pub at_payer : keyed_account_at_index accounts first ≡ ok d.payer
  pub at_programdata : keyed_account_at_index accounts (first + 1) ≡ ok d.programdata
  pub at_program : keyed_account_at_index accounts (first + 2) ≡ ok d.program
  pub at_buffer : keyed_account_at_index accounts (first + 3) ≡ ok d.buffer
  pub at_authority : keyed_account_at_index accounts (first + 7) ≡ ok d.authority

pub deploy_accounts-Indices :
    (sdk : Sdk) (accounts : List KeyedAccount) (first : ℕ) (c : InvokeContext) (d : DeployAccounts)
    → deploy_accounts sdk accounts first c ≡ ok d
    → DeployIndices accounts first d
unfolding deploy_accounts
deploy_accounts-Indices sdk accounts first c d e = ground arith

module _ (x : ℕ) (before : Account) (accounts : List KeyedAccount) (sdk : Sdk)
    (law : IsCheckedAdd sdk) (codec : IsStateCodec sdk) (create : IsCreateAccount sdk)
    (s : UpgradeableLoaderState) (es : sdk.state before.data_bytes ≡ ok s)
    (frozen : is_fixed s ≡ true) where
  abbrev P : InvokeContext → Type 0
  P = Frozen x before accounts

  has_data : (c : InvokeContext) → P c → (c.cells x).data_bytes ≢ []
  has_data c h e = codec.not_empty s (cc (es, h.preserved.data_same))

  -- The new account is another one, and the frozen one is left alone.
  Frozen-native_invoke :
      (d : DeployAccounts) (len : ℕ) (id : Pubkey) (signers : List Pubkey) (first : ℕ)
      → DeployIndices accounts first d
      → Triple P
          (sdk.native_invoke (create_instruction sdk d len id) signers)
          (λ c. P c × (d.programdata.cell ≢ x))
  Frozen-native_invoke d len id signers first at = record {
    at = λ c h. go c h (sdk.native_invoke (create_instruction sdk d len id) signers c) refl;
  }
    where
      trans :
          (c c' : InvokeContext)
          → P c
          → Preserved (c.cells x) (c'.cells x)
          → Preserved before (c'.cells x)
      trans c c' h p = record {
        data_same = p.data_same ∙ h.preserved.data_same;
        owner_same = p.owner_same ∙ h.preserved.owner_same;
        executable_same = p.executable_same ∙ h.preserved.executable_same;
        lamports_le = omega (arith, p.lamports_le, h.preserved.lamports_le);
      }

      go :
          (c : InvokeContext)
          → P c
          → (r : Outcome (Unit {0}) × InvokeContext)
          → sdk.native_invoke (create_instruction sdk d len id) signers c ≡ r
          → After (λ c. P c × (d.programdata.cell ≢ x)) r
      go c h (ok tt, c') e = (
        record {
          preserved = trans c c' h (create.keeps_data d len id signers c c' x e (has_data c h));
          same_accounts = create.keeps_accounts d len id signers c c' e ∙ h.same_accounts;
        },
        λ same. has_data c h (
            subst (λ y. (c.cells y).data_bytes ≡ []) same
              (create.new_has_no_data d len id signers c c' accounts (first + 1) d.programdata e
                h.same_accounts at.at_programdata refl)),
      )
      go c h (err y, c') e = tt
      go c h (panic, c') e = tt

  Frozen-create_programdata :
      (d : DeployAccounts) (l : Lengths) (bump : ℕ) (predrain : Bool) (id : Pubkey) (first : ℕ)
      → DeployIndices accounts first d
      → d.buffer.cell ≢ x
      → Triple P (create_programdata sdk d l bump predrain id) (λ c. P c × (d.programdata.cell ≢ x))
  unfolding create_programdata
  Frozen-create_programdata d l bump predrain id first at nb =
      Triple-bind _ _
        (Triple-when predrain _ λ _. Frozen-drain x before accounts sdk law d.buffer d.payer nb)
        λ _.
          Triple-reads_bind (λ c. c.caller) _
            λ c h caller _.
              Triple-lift_bind _ _
                λ signers _. Frozen-native_invoke d l.programdata_len id signers first at

  Frozen-record_program :
      (d : DeployAccounts) (l : Lengths) (predrain : Bool) (first : ℕ)
      → DeployIndices accounts first d
      → d.programdata.cell ≢ x
      → d.program.cell ≢ x
      → d.buffer.cell ≢ x
      → Keeps P (record_program sdk d l predrain accounts first)
  unfolding record_program
  Frozen-record_program d l predrain first at nd np nb = Triple-lift_bind _ _ λ payer _.
      Triple-lift_bind _ _ λ programdata ed. Triple-lift_bind _ _ λ program ep.
        Triple-lift_bind _ _ λ buffer eb.
          let nd' : programdata.cell ≢ x =
            moved d.programdata programdata (cc (at.at_programdata)) nd in
          let np' : program.cell ≢ x = moved d.program program (cc (at.at_program)) np in
          let nb' : buffer.cell ≢ x = moved d.buffer buffer (cc (at.at_buffer)) nb in
          Triple-bind _ _ (Frozen-modify_ne x before accounts programdata.cell _ nd') λ _.
            Triple-bind _ _ (Frozen-copy_program x before accounts programdata buffer _ _ _ nd')
              λ _. Triple-bind _ _ (Frozen-modify_ne x before accounts program.cell _ np') λ _.
                Triple-bind _ _ (Frozen-modify_ne x before accounts program.cell _ np')
                  λ _. Triple-when _ _ λ _. Frozen-drain x before accounts sdk law buffer payer nb'
    where
      moved : (a b : KeyedAccount) → a ≡ b → a.cell ≢ x → b.cell ≢ x
      moved a b e ne = subst (λ (q : KeyedAccount). q.cell ≢ x) e ne

  pub Frozen-deploy :
      (first : ℕ) (id : Pubkey) (max_data_len : ℕ) (jit : Bool)
      → Keeps P (deploy sdk accounts first id max_data_len jit)
  unfolding deploy
  Frozen-deploy first id max_data_len jit =
      Triple-reads_bind (deploy_accounts sdk accounts first) _ λ c h d ed.
        Triple-reads_bind (Deploy.verify_program sdk d) _ λ c1 h1 _ ep.
          Triple-reads_bind (Deploy.verify_buffer sdk d max_data_len) _ λ c2 h2 l eb.
            Triple-lift_bind _ _ λ bump _. Triple-reads_bind _ _ λ _ _ predrain _.
              let at = deploy_accounts-Indices sdk accounts first c d ed in
              let np =
                other x before accounts sdk law s es frozen d.program c1 h1
                  (deploy_program sdk d c1 ep) in
              let nb =
                other x before accounts sdk law s es frozen d.buffer c2 h2
                  (deploy_buffer sdk d l max_data_len c2 eb) in
              Triple-bind _ _ (Frozen-create_programdata d l bump predrain id first at nb) λ _.
                Triple-reads_bind (create_executor sdk (first + 3) l.buffer_data_offset jit) _
                  λ _ hx e _.
                    Triple-weaken _
                      (Triple-bind _ _ (Frozen-add_executor x before accounts _ e) λ _.
                        Triple-reads_bind (λ k. k.keyed_accounts) _
                          λ k hk found ef.
                            subst (λ found. Keeps P (record_program sdk d l predrain found first))
                              (cc (hk.same_accounts))
                              (Frozen-record_program d l predrain first at hx.1 np nb))
                      (λ k hk. hk.0)
