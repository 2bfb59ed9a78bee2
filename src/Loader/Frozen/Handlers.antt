-- ===== src/Loader/Frozen/Handlers.antt =====
-- No handler but DeployWithMaxDataLen changes a fixed account.
use solana_sdk_sample.Base.{ℕ, ◌+◌, ◌≡◌, ◌≢◌, refl, subst, true, false, Option, List, arith}
use solana_sdk_sample.Runtime.Outcome.{ok}
use solana_sdk_sample.Runtime.Account.{
  Account, Bytes, Pubkey, KeyedAccount, InvokeContext, keyed_account_at_index,
}
use solana_sdk_sample.Runtime.Action.Triple.{
  Keeps, Triple-lift, Triple-reads_bind, Triple-lift_bind, Triple-bind,
}
use solana_sdk_sample.Runtime.Sdk.{Sdk}
use solana_sdk_sample.Runtime.Sdk.Laws.{IsCheckedAdd}
use solana_sdk_sample.State
use solana_sdk_sample.State.{UpgradeableLoaderState}
use solana_sdk_sample.Loader.Accounts.{state_of, with_state, check_authority}
use solana_sdk_sample.Loader.Buffer
use solana_sdk_sample.Loader.Buffer.{
  check_buffer, write_bytes, write_program_data, initialize_buffer,
}
use solana_sdk_sample.Loader.Authority.{set_authority}
use solana_sdk_sample.Loader.Close.{common_close_account, check_program, close_by_state, close}
use solana_sdk_sample.Loader.Frozen.{is_fixed}
use solana_sdk_sample.Loader.Frozen.Steps.{
  Frozen, Frozen-modify_ne, Frozen-drain, other_cell, check_buffer-refuses, new_state-refuses,
}

module _ (x : ℕ) (before : Account) (accounts : List KeyedAccount) (sdk : Sdk)
    (law : IsCheckedAdd sdk) (s : UpgradeableLoaderState) (es : sdk.state before.data_bytes ≡ ok s)
    (frozen : is_fixed s ≡ true) where
  abbrev P : InvokeContext → Type 0
  P = Frozen x before accounts

  -- An account in a state with an authority is another one.
  pub differs :
      (t : UpgradeableLoaderState) (a : KeyedAccount) (c : InvokeContext)
      → P c
      → state_of sdk a c ≡ ok t
      → is_fixed t ≡ false
      → a.cell ≢ x
  differs t a c = other_cell x before accounts sdk s t a c es frozen

  pub Frozen-initialize_buffer : (first : ℕ) → Keeps P (initialize_buffer sdk accounts first)
  unfolding initialize_buffer
  Frozen-initialize_buffer first = Triple-lift_bind _ _ λ b eb.
      Triple-reads_bind (state_of sdk b) _ λ c h t et. Triple-lift_bind _ _ λ _ fresh.
        Triple-lift_bind _ _
          λ a ea. Frozen-modify_ne x before accounts b.cell _ (differs t b c h et (ground arith))

  Frozen-write_program_data :
      (first offset : ℕ) (bytes : Bytes) (b : KeyedAccount)
      → keyed_account_at_index accounts first ≡ ok b
      → b.cell ≢ x
      → Keeps P (write_program_data first offset bytes)
  unfolding write_program_data
  Frozen-write_program_data first offset bytes b eb ne =
      Triple-reads_bind (λ c. c.keyed_accounts) _
        λ c h found e. Triple-lift_bind _ _ λ p ep.
          let same : found ≡ accounts = cc (h.same_accounts) in
          let at_first : keyed_account_at_index accounts first ≡ ok p =
            subst (λ l. keyed_account_at_index l first ≡ ok p) same ep in
          let same_account : b ≡ p = cc in
          Frozen-modify_ne x before accounts p.cell (write_bytes offset bytes)
            (subst (λ (q : KeyedAccount). q.cell ≢ x) same_account ne)

  pub Frozen-write :
      (first offset : ℕ) (bytes : Bytes) → Keeps P (Buffer.write sdk accounts first offset bytes)
  unfolding Buffer.write
  Frozen-write first offset bytes = Triple-lift_bind _ _ λ b eb. Triple-lift_bind _ _ λ a ea.
      Triple-reads_bind (state_of sdk b) _ λ c h t et.
        Triple-lift_bind (check_buffer t a) _ λ _ ok_buffer. Triple-lift_bind _ _ λ o _.
          Frozen-write_program_data first (o + offset) bytes b eb
            (differs t b c h et (check_buffer-refuses t a ok_buffer))

  pub Frozen-set_authority : (first : ℕ) → Keeps P (set_authority sdk accounts first)
  unfolding set_authority
  Frozen-set_authority first = Triple-lift_bind _ _ λ a ea. Triple-lift_bind _ _ λ p ep.
      Triple-reads_bind (state_of sdk a) _ λ c h t et. Triple-lift_bind _ _ λ t' allowed.
        Frozen-modify_ne x before accounts a.cell (with_state sdk t')
          (differs t a c h et (new_state-refuses t t' p _ allowed))

  Frozen-common_close_account :
      (o : Option Pubkey) (a closed recipient : KeyedAccount)
      → (check_authority o a ≡ ok tt → closed.cell ≢ x)
      → Keeps P (common_close_account sdk o a closed recipient)
  unfolding common_close_account
  Frozen-common_close_account o a closed recipient ne =
      Triple-lift_bind (check_authority o a) _ λ _ allowed.
        Triple-bind _ _ (Frozen-drain x before accounts sdk law closed recipient (ne allowed))
          λ _. Frozen-modify_ne x before accounts closed.cell _ (ne allowed)

  Frozen-check_program :
      (program closed : KeyedAccount) (id : Pubkey) → Keeps P (check_program sdk program closed id)
  unfolding check_program
  Frozen-check_program program closed id = Triple-lift_bind _ _ λ _ _.
      Triple-reads_bind _ _ λ c h o _. Triple-lift_bind _ _ λ _ _.
        Triple-reads_bind (state_of sdk program) _
          λ c' h' t _. Triple-lift_bind _ _ λ address _. Triple-lift _

  -- An authority that passes the check is there.
  buffer_has_authority :
      (o : Option Pubkey) (a : KeyedAccount)
      → check_authority o a ≡ ok tt
      → is_fixed (State.buffer o) ≡ false
  unfolding check_authority
  buffer_has_authority o a e = ground arith

  programdata_has_authority :
      (slot : ℕ) (o : Option Pubkey) (a : KeyedAccount)
      → check_authority o a ≡ ok tt
      → is_fixed (State.program_data slot o) ≡ false
  unfolding check_authority
  programdata_has_authority slot o a e = ground arith

  Frozen-close_by_state :
      (t : UpgradeableLoaderState) (first : ℕ) (id : Pubkey) (closed recipient : KeyedAccount)
      → (is_fixed t ≡ false → closed.cell ≢ x)
      → Keeps P (close_by_state sdk t accounts first id closed recipient)
  unfolding close_by_state
  Frozen-close_by_state State.uninitialized first id closed recipient ne =
      Frozen-drain x before accounts sdk law closed recipient (ne refl)
  Frozen-close_by_state (State.buffer o) first id closed recipient ne =
      Triple-lift_bind _ _ λ a _.
        Frozen-common_close_account o a closed recipient (λ e. ne (buffer_has_authority o a e))
  Frozen-close_by_state (State.program_data slot o) first id closed recipient ne =
      Triple-lift_bind _ _ λ p _. Triple-bind _ _ (Frozen-check_program p closed id) λ _.
        Triple-lift_bind _ _ λ a _.
          Frozen-common_close_account o a closed recipient
            (λ e. ne (programdata_has_authority slot o a e))
  Frozen-close_by_state (State.program k) first id closed recipient ne = Triple-lift _

  pub Frozen-close : (first : ℕ) (id : Pubkey) → Keeps P (close sdk accounts first id)
  unfolding close
  Frozen-close first id = Triple-lift_bind _ _ λ closed ec. Triple-lift_bind _ _ λ recipient er.
      Triple-lift_bind _ _ λ _ _.
        Triple-reads_bind (state_of sdk closed) _
          λ c h t et. Frozen-close_by_state t first id closed recipient (differs t closed c h et)
