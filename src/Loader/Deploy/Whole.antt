-- ===== src/Loader/Deploy/Whole.antt =====
-- The whole of DeployWithMaxDataLen: who may do it, and what it leaves.
use solana_sdk_sample.Base.{ℕ, ◌+◌, ◌≡◌, ap, subst, ◌∙◌, Bool, List, drop}
use solana_sdk_sample.Runtime.Outcome.{ok}
use solana_sdk_sample.Runtime.Account.{Pubkey, KeyedAccount, InvokeContext, BpfExecutor}
use solana_sdk_sample.Runtime.Action.{Action, ◌>>=◌, reads}
use solana_sdk_sample.Runtime.Action.Triple.{
  Triple-frame, Triple, Keeps, Triple-reads_bind, Triple-bind, Triple-weaken, Triple-strengthen,
}
use solana_sdk_sample.Runtime.Action.At.{Triple-from, At, At-reads, At-lift, At-ok}
use solana_sdk_sample.Runtime.Sdk.{Sdk}
use solana_sdk_sample.Runtime.Sdk.Laws.{IsStateCodec}
use solana_sdk_sample.Loader.Executor.{create_executor}
use solana_sdk_sample.Loader.Deploy.{
  DeployAccounts, Lengths, deploy_accounts, verify_program, verify_buffer, derive_bump,
}
use solana_sdk_sample.Loader.Deploy.Commit.{add_executor, record_program, deploy}
use solana_sdk_sample.Loader.Deploy.Laws.{
  MayDeploy, verified, lengths_offsets, Intact, Created, Intact-add_executor,
  Created-create_programdata,
}
use solana_sdk_sample.Loader.Frozen.{IsCreateAccount}
use solana_sdk_sample.Loader.Frozen.Deploy.{DeployIndices, deploy_accounts-Indices}
use solana_sdk_sample.Loader.Deploy.Recorded.{Recorded, Done-record_program}

module _ (sdk : Sdk) (codec : IsStateCodec sdk) (d : DeployAccounts) (accounts : List KeyedAccount)
    (first : ℕ) (at : DeployIndices accounts first d) (l : Lengths)
    (at_offsets : (l.programdata_data_offset ≡ 45) × (l.buffer_data_offset ≡ 37))
    (c : InvokeContext) where
  Done-Created :
      (predrain : Bool)
      → Triple
          (Created sdk accounts d c)
          (record_program sdk d l predrain accounts first)
          (Recorded sdk d (drop 37 (c.cells d.buffer.cell).data_bytes))
  Done-Created predrain = Triple-from _ λ e h.
      subst
        (λ xs.
          Triple (At e) (record_program sdk d l predrain accounts first)
            (Recorded sdk d (drop 37 xs)))
        h.0.buffer_data
        (Done-record_program sdk codec d e h.1 accounts first at l at_offsets predrain)

  Created-add_executor :
      (k : Pubkey) (x : BpfExecutor) → Keeps (Created sdk accounts d c) (add_executor k x)
  Created-add_executor k x = Triple-frame _ _ (Intact-add_executor sdk accounts d c k x)

  -- The end of Deploy, after the ProgramData account is created.
  abbrev commit : Bool → Bool → Action (Unit {0})
  commit jit predrain =
      reads (create_executor sdk (first + 3) l.buffer_data_offset jit) >>= λ executor.
      add_executor d.program.unsigned_key executor >>= λ _.
      reads (λ e. e.keyed_accounts) >>= λ accounts_after.
      record_program sdk d l predrain accounts_after first

  pub Done-commit :
      (jit predrain : Bool)
      → Triple
          (Created sdk accounts d c)
          (commit jit predrain)
          (Recorded sdk d (drop 37 (c.cells d.buffer.cell).data_bytes))
  Done-commit jit predrain =
      Triple-reads_bind (create_executor sdk (first + 3) l.buffer_data_offset jit) _ λ e h x _.
        Triple-bind _ _ (Created-add_executor d.program.unsigned_key x) λ _.
          Triple-reads_bind (λ e. e.keyed_accounts) _
            λ e h found ef.
              subst
                (λ found.
                  Triple (Created sdk accounts d c) (record_program sdk d l predrain found first)
                    (Recorded sdk d (drop 37 (c.cells d.buffer.cell).data_bytes)))
                (cc (h.0.same_accounts, ef)) (Done-Created predrain)

-- What a successful DeployWithMaxDataLen has checked and done.
pub record Deployed (sdk : Sdk) (accounts : List KeyedAccount) (first : ℕ) (id : Pubkey)
    (max_data_len : ℕ) (c c' : InvokeContext) : Type 0 where
  pub d : DeployAccounts
  pub found : deploy_accounts sdk accounts first c ≡ ok d
  pub allowed : MayDeploy sdk d id max_data_len c
  pub recorded : Recorded sdk d (drop 37 (c.cells d.buffer.cell).data_bytes) c'

-- A successful DeployWithMaxDataLen was signed by the authority of the buffer, for a program account
-- that was uninitialised, rent exempt and large enough, with its derived ProgramData address. It
-- leaves the program executable and pointing to the ProgramData account, which has the clock's slot,
-- the buffer's authority and the buffer's program bits. The system program's CreateAccount leaves
-- accounts with data alone and wants a new account without any.
pub deploy-Deployed :
    (sdk : Sdk) (accounts : List KeyedAccount) (first : ℕ) (id : Pubkey) (max_data_len : ℕ)
    (jit : Bool) (c c' : InvokeContext)
    → IsStateCodec sdk
    → IsCreateAccount sdk
    → c.keyed_accounts ≡ ok accounts
    → deploy sdk accounts first id max_data_len jit c ≡ (ok tt, c')
    → Deployed sdk accounts first id max_data_len c c'
unfolding deploy
deploy-Deployed sdk accounts first id max_data_len jit c c' codec create same run =
    At-ok _ (Deployed sdk accounts first id max_data_len c) c c' tt
      (At-reads (deploy_accounts sdk accounts first) _ λ d ed.
        At-reads (verify_program sdk d) _ λ _ ep.
          At-reads (verify_buffer sdk d max_data_len) _ λ l eb.
            At-lift (derive_bump sdk d id) _ λ bump ex. At-reads _ _ λ predrain _.
              let allowed = verified sdk d l id max_data_len bump c ep eb ex in
              let at = deploy_accounts-Indices sdk accounts first c d ed in
              Triple-bind _ _
                (Triple-weaken _
                  (Created-create_programdata sdk accounts d c create first at.at_programdata
                    allowed.program_has_room allowed.buffer_not_empty l bump predrain id)
                  (at_start d))
                λ _.
                  Triple-strengthen _
                    (Done-commit sdk codec d accounts first at l
                      (lengths_offsets sdk d l max_data_len c eb) c jit predrain)
                    λ e recorded. record {
                      d = d;
                      found = ed;
                      allowed = allowed;
                      recorded = recorded;
                    })
      run
  where
    at_start : (d : DeployAccounts) (e : InvokeContext) → e ≡ c → Intact sdk accounts d c e
    at_start d e h = record {
      buffer_data = ap (λ (x : InvokeContext). (x.cells d.buffer.cell).data_bytes) h;
      program_data = ap (λ (x : InvokeContext). (x.cells d.program.cell).data_bytes) h;
      same_accounts = ap (λ (x : InvokeContext). x.keyed_accounts) h ∙ same;
    }
