-- ===== src/Loader/Panics/Whole.antt =====
-- Upgrade as a whole.
use solana_sdk_sample.Base.{
  ℕ, ◌+◌, ◌-◌, ◌^◌, ◌≤◌, ◌<◌, ◌≡◌, sym, ap, subst, ◌∙◌, Bool, List, length, arith,
}
use solana_sdk_sample.Runtime.Outcome.{Outcome, ok}
use solana_sdk_sample.Runtime.Account.{Account, Pubkey, KeyedAccount, InvokeContext, BpfExecutor}
use solana_sdk_sample.Runtime.Action.{Action, ◌>>=◌, lift, reads}
use solana_sdk_sample.Runtime.Action.Triple.{Assertion}
use solana_sdk_sample.Runtime.Action.At.{At}
use solana_sdk_sample.Runtime.Action.Calm.{
  Calm, Calm-lift_bind, Calm-reads_bind, Calm-reads_at, Calm-bind,
}
use solana_sdk_sample.Runtime.Sdk.{Sdk}
use solana_sdk_sample.Runtime.Sdk.Laws.{IsStateCodec}
use solana_sdk_sample.State
use solana_sdk_sample.Loader.Accounts.{with_state}
use solana_sdk_sample.Loader.Executor.{create_executor}
use solana_sdk_sample.Loader.Deploy.Commit.{add_executor}
use solana_sdk_sample.Loader.Upgrade
use solana_sdk_sample.Loader.Upgrade.{
  UpgradeAccounts, UpgradeLengths, verify_program, verify_buffer, verify_programdata,
}
use solana_sdk_sample.Loader.Upgrade.Commit.{record_upgrade, upgrade}
use solana_sdk_sample.Loader.Lamports.Whole.{UpgradeIndices, upgrade_accounts-Indices}
use solana_sdk_sample.Loader.Panics.{IsTotal, Given, index_returns, with_state-returns}
use solana_sdk_sample.Loader.Panics.Checks.{
  create_executor-returns, upgrade_accounts-returns, verify_program-returns, verify_buffer-returns,
  verify_programdata-returns,
}
use solana_sdk_sample.Loader.Panics.Upgrade.{
  Small, Addressable, Sized, Sized-modify, Calm-copy_program, Calm-zero_from, Calm-fund,
}

-- The checks of Upgrade on the lengths.
checked_lengths :
    (sdk : Sdk) (u : UpgradeAccounts) (l : UpgradeLengths) (c : InvokeContext)
    → length (c.cells u.programdata.cell).data_bytes < 2 ^ 63
    → verify_buffer sdk u c ≡ ok l
    → verify_programdata sdk u l c ≡ ok tt
    → let m = length (c.cells u.buffer.cell).data_bytes in
      (l.buffer_data_offset ≡ 37)
      × (l.programdata_data_offset ≡ 45)
      × (l.buffer_data_len ≡ m - 37)
      × (37 ≤ m)
      × (8 + m ≤ length (c.cells u.programdata.cell).data_bytes)
unfolding verify_buffer verify_programdata
checked_lengths sdk u l c short eb ep =
    (ground arith, ground arith, ground arith, ground arith, ground (arith, short))

-- A value that is known.
pub Calm-known :
    {A B : Type 0} {P Q : Assertion} (r : Outcome A) (k : A → Action B) (a : A)
    → r ≡ ok a
    → Calm P (k a) Q
    → Calm P (lift r >>= k) Q
Calm-known {P = P} {Q = Q} r k a e keep =
    Calm-lift_bind r k (λ h. cc) λ b eb. subst (λ b. Calm P (k b) Q) (cc) keep

module _ (sdk : Sdk) (total : IsTotal sdk) (codec : IsStateCodec sdk)
    (accounts : List KeyedAccount) where
  module _ (u : UpgradeAccounts) (first n m required : ℕ) (at : UpgradeIndices accounts first u)
      (fits : 8 + m ≤ n) (has_metadata : 37 ≤ m) where
    abbrev S : Assertion
    S = Sized sdk total codec accounts u.programdata u.buffer n m

    abbrev found_lengths : UpgradeLengths
    found_lengths = record {
      buffer_data_offset = 37;
      buffer_data_len = m - 37;
      programdata_data_offset = 45;
      programdata_balance_required = required;
    }

    state_kept_size :
        (s : State.UpgradeableLoaderState) (a b : Account)
        → with_state sdk s a ≡ ok b
        → (length b.data_bytes ≡ length a.data_bytes) × (b.lamports ≡ a.lamports)
    state_kept_size s a b e =
        (ground (arith, codec.length-set_state s a.data_bytes b.data_bytes), ground arith)

    Calm-record_upgrade :
        Calm S (record_upgrade sdk u found_lengths accounts first) (Given sdk total accounts)
    unfolding record_upgrade
    Calm-record_upgrade = Calm-known _ _ u.programdata at.at_programdata (
        Calm-known _ _ u.buffer at.at_buffer (
          Calm-lift_bind _ _ (index_returns accounts (first + 3)) λ spill _.
            Calm-known _ _ u.authority at.at_authority (
              Calm-bind _ _
                (Sized-modify sdk total codec accounts u.programdata u.buffer n m _
                  (λ c h. with_state-returns sdk total accounts _ _)
                  (λ c y h e. state_kept_size _ (c.cells u.programdata.cell) y e))
                λ _.
                  Calm-bind _ _
                    (Calm-copy_program sdk total codec accounts u.programdata u.buffer n m fits
                      has_metadata)
                    λ _.
                      Calm-bind _ _
                        (Calm-zero_from sdk total codec accounts u.programdata u.buffer n m fits
                          has_metadata)
                        λ _.
                          Calm-fund sdk total codec accounts u.programdata u.buffer n m fits
                            has_metadata spill required)))

  module _ (c : InvokeContext) (given : c.keyed_accounts ≡ ok accounts) (small : Small c)
      (addressable : Addressable c) where
    -- The executor goes into the cache, and the rest records the program.
    Calm-commit :
        (u : UpgradeAccounts) (l : UpgradeLengths) (first : ℕ) (x : BpfExecutor)
        → UpgradeIndices accounts first u
        → verify_buffer sdk u c ≡ ok l
        → verify_programdata sdk u l c ≡ ok tt
        → Calm
            (At c)
            (add_executor u.program.unsigned_key x >>= λ _.
              reads (λ d. d.keyed_accounts) >>= λ found. record_upgrade sdk u l found first)
            (Given sdk total accounts)
    unfolding add_executor
    Calm-commit u l first x at eb ep =
        let n = length (c.cells u.programdata.cell).data_bytes in
        let m = length (c.cells u.buffer.cell).data_bytes in
        let required = l.programdata_balance_required in
        let (from, start, len, has_metadata, fits) =
          checked_lengths sdk u l c (addressable u.programdata.cell) eb ep in
        let same : found_lengths u first n m required at fits has_metadata ≡ l = λ i. record {
          buffer_data_offset = sym from i;
          buffer_data_len = sym len i;
          programdata_data_offset = sym start i;
          programdata_balance_required = required;
        } in
        Calm-bind {R = S u first n m required at fits has_metadata} _ _
          (record {
            at = λ d h. record {
              given = ap (λ (e : InvokeContext). e.keyed_accounts) h ∙ given;
              small = λ x.
                  subst (λ (e : InvokeContext). (e.cells x).lamports < 2 ^ 63) (sym h) (small x);
              size_p = ap (λ (e : InvokeContext). length (e.cells u.programdata.cell).data_bytes) h;
              size_b = ap (λ (e : InvokeContext). length (e.cells u.buffer.cell).data_bytes) h;
            };
          })
          λ _.
            Calm-reads_bind (λ d. d.keyed_accounts) _ (λ d h e. cc (h.given, e))
              λ d h found ef.
                subst
                  (λ found.
                    Calm (S u first n m required at fits has_metadata)
                      (record_upgrade sdk u l found first) (Given sdk total accounts))
                  (cc (h.given, ef))
                  (subst
                    (λ l.
                      Calm (S u first n m required at fits has_metadata)
                        (record_upgrade sdk u l accounts first) (Given sdk total accounts))
                    same (Calm-record_upgrade u first n m required at fits has_metadata))

    pub Calm-upgrade :
        (first : ℕ) (id : Pubkey) (jit : Bool)
        → Calm (At c) (upgrade sdk accounts first id jit) (Given sdk total accounts)
    unfolding upgrade
    Calm-upgrade first id jit =
        Calm-reads_at (Upgrade.upgrade_accounts sdk accounts first) _
          (upgrade_accounts-returns sdk total accounts first c)
          λ u eu.
            Calm-reads_at (verify_program sdk u id) _
              (verify_program-returns sdk total accounts u c id)
              λ _ _.
                Calm-reads_at (verify_buffer sdk u) _ (verify_buffer-returns sdk total accounts u c)
                  λ l eb.
                    Calm-reads_at (verify_programdata sdk u l) _
                      (verify_programdata-returns sdk total accounts u c l (small _) (small _))
                      λ _ ep.
                        let at = upgrade_accounts-Indices sdk accounts first c u eu in
                        let (from, start, len, has_metadata, fits) =
                          checked_lengths sdk u l c (addressable u.programdata.cell) eb ep in
                        Calm-reads_at (create_executor sdk (first + 2) l.buffer_data_offset jit) _
                          (create_executor-returns sdk total accounts (first + 2)
                            l.buffer_data_offset jit u.buffer c given at.at_buffer
                            (omega (arith, from, has_metadata)))
                          λ x _. Calm-commit u l first x at eb ep
