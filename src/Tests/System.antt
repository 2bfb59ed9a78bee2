-- ===== src/Tests/System.antt =====
-- A stand-in for the system program's CreateAccount, and that it does what the theorems ask of it.
use solana_sdk_sample.Base.{
  ℕ, zero, suc, ◌+◌, ◌-◌, ◌≤◌, ◌<◌, ◌≡◌, ◌≢◌, refl, ap, sym, subst, subst₂, ◌∙◌, Bool, true, false,
  not, List, [], ◌∷◌, arith, ◌==◌, ◌&&◌, ◌||◌, ltb, length, length-replicate, replicate,
  if◌then◌else◌,
}
use solana_sdk_sample.Runtime.Outcome.{
  Outcome, ok, err, panic, ◌>>=◌, ◌>>◌, fail_if, other, not_enough_account_keys,
}
use solana_sdk_sample.Runtime.Account.{
  Account, Bytes, Cells, Pubkey, KeyedAccount, InvokeContext, keyed_account_at_index, update,
  update_ne, update_self,
}
use solana_sdk_sample.Instruction.{AccountMeta}
use solana_sdk_sample.Loader.Lamports.{total, total-update, AllBelow}

abbrev lookup_key : Pubkey → List KeyedAccount → Outcome KeyedAccount
lookup_key k [] = err not_enough_account_keys
lookup_key k (a ∷ rest) = if a.unsigned_key == k then ok a else lookup_key k rest

abbrev has_no_data : ℕ → Cells → Bool
has_no_data cell cells = length (cells cell).data_bytes == 0

-- No account under the key has data.
abbrev all_empty : Pubkey → List KeyedAccount → Cells → Bool
all_empty k [] cells = true
all_empty k (a ∷ rest) cells =
    (not (a.unsigned_key == k) || has_no_data a.cell cells) && all_empty k rest cells

abbrev checked : Pubkey → Pubkey → ℕ → InvokeContext → Outcome (KeyedAccount × KeyedAccount)
checked from to lamports c = do
  accounts ← c.keyed_accounts
  f ← lookup_key from accounts
  t ← lookup_key to accounts
  fail_if (not (all_empty to accounts c.cells)) (other 0)
  fail_if (not (has_no_data t.cell c.cells)) (other 0)
  fail_if (not (has_no_data f.cell c.cells)) (other 1)
  fail_if (f.cell == t.cell) (other 2)
  fail_if (ltb (c.cells f.cell).lamports lamports) (other 3)
  ok (f, t)

abbrev paid : Cells → KeyedAccount → ℕ → Cells
paid cells f lamports =
    update cells f.cell (record (cells f.cell) { lamports = (cells f.cell).lamports - lamports })

abbrev created : Cells → KeyedAccount → KeyedAccount → ℕ → ℕ → Pubkey → Cells
created cells f t lamports space owner =
    update (paid cells f lamports) t.cell (record (cells t.cell) {
      lamports = (cells t.cell).lamports + lamports;
      data_bytes = replicate space 0;
      owner = owner;
    })

abbrev settle :
    Outcome (KeyedAccount × KeyedAccount)
    → ℕ
    → ℕ
    → Pubkey
    → InvokeContext
    → Outcome (Unit {0}) × InvokeContext
settle (ok (f, t)) lamports space owner c =
    (ok tt, record c { cells = created c.cells f t lamports space owner })
settle (err e) lamports space owner c = (err e, c)
settle panic lamports space owner c = (panic, c)

unfoldable pub run_create :
    List AccountMeta → Bytes → InvokeContext → Outcome (Unit {0}) × InvokeContext
run_create (from ∷ to ∷ rest) (lamports ∷ space ∷ owner ∷ []) c =
    settle (checked from.pubkey to.pubkey lamports c) lamports space owner c
run_create _ _ c = (err (other 9), c)

-- What the checks have found.
record Checked (from to : Pubkey) (lamports : ℕ) (c : InvokeContext) (f t : KeyedAccount)
    : Type 0 where
  accounts : List KeyedAccount
  given : c.keyed_accounts ≡ ok accounts
  f_found : lookup_key from accounts ≡ ok f
  t_found : lookup_key to accounts ≡ ok t
  new_empty : all_empty to accounts c.cells ≡ true
  t_empty : length (c.cells t.cell).data_bytes ≡ 0
  f_empty : length (c.cells f.cell).data_bytes ≡ 0
  two : f.cell ≢ t.cell
  enough : lamports ≤ (c.cells f.cell).lamports

bind-ok :
    {A B : Type 0} (m : Outcome A) (k : A → Outcome B) (b : B)
    → (m >>= k) ≡ ok b
    → (a : A) × (m ≡ ok a) × (k a ≡ ok b)
bind-ok (ok a) k b h = (a, refl, h)
bind-ok (err e) k b h = cc
bind-ok panic k b h = cc

checked_lem :
    (from to : Pubkey) (lamports : ℕ) (c : InvokeContext) (f t : KeyedAccount)
    → checked from to lamports c ≡ ok (f, t)
    → Checked from to lamports c f t
checked_lem from to lamports c f t h =
    let (accounts, ea, h1) = bind-ok c.keyed_accounts _ (f, t) h in
    let (f', ef, h2) = bind-ok (lookup_key from accounts) _ (f, t) h1 in
    let (t', et, h3) = bind-ok (lookup_key to accounts) _ (f, t) h2 in
    let (_, e0, h4) =
      bind-ok (fail_if (not (all_empty to accounts c.cells)) (other 0)) _ (f, t) h3 in
    let (_, e1, h5) = bind-ok (fail_if (not (has_no_data t'.cell c.cells)) (other 0)) _ (f, t) h4 in
    let (_, e2, h6) = bind-ok (fail_if (not (has_no_data f'.cell c.cells)) (other 1)) _ (f, t) h5 in
    let (_, e3, h7) = bind-ok (fail_if (f'.cell == t'.cell) (other 2)) _ (f, t) h6 in
    let (_, e4, h8) =
      bind-ok (fail_if (ltb (c.cells f'.cell).lamports lamports) (other 3)) _ (f, t) h7 in
    let fs : f' ≡ f = cc in
    let ts : t' ≡ t = cc in
    record {
      accounts = accounts;
      given = ea;
      f_found = ef ∙ ap ok fs;
      t_found = et ∙ ap ok ts;
      new_empty = ground arith;
      t_empty =
          subst (λ (x : KeyedAccount). length (c.cells x.cell).data_bytes ≡ 0) ts (ground arith);
      f_empty =
          subst (λ (x : KeyedAccount). length (c.cells x.cell).data_bytes ≡ 0) fs (ground arith);
      two = subst₂ (λ (x y : KeyedAccount). x.cell ≢ y.cell) fs ts (ground arith);
      enough = subst (λ (x : KeyedAccount). lamports ≤ (c.cells x.cell).lamports) fs (ground arith);
    }

-- What a successful run has found and done.
record Ran (call : List AccountMeta) (c c' : InvokeContext) : Type 0 where
  from : AccountMeta
  to : AccountMeta
  rest : List AccountMeta
  is_call : call ≡ from ∷ to ∷ rest
  f : KeyedAccount
  t : KeyedAccount
  lamports : ℕ
  space : ℕ
  owner : Pubkey
  facts : Checked from.pubkey to.pubkey lamports c f t
  left : record c { cells = created c.cells f t lamports space owner } ≡ c'

run_create_lem :
    (call : List AccountMeta) (d : Bytes) (c c' : InvokeContext)
    → run_create call d c ≡ (ok tt, c')
    → Ran call c c'
unfolding run_create
run_create_lem (from ∷ to ∷ rest) (lamports ∷ space ∷ owner ∷ []) c c' h =
    go (checked from.pubkey to.pubkey lamports c) refl h
  where
    go :
        (r : Outcome (KeyedAccount × KeyedAccount))
        → checked from.pubkey to.pubkey lamports c ≡ r
        → settle r lamports space owner c ≡ (ok tt, c')
        → Ran (from ∷ to ∷ rest) c c'
    go (ok (f, t)) e k = record {
      from = from;
      to = to;
      rest = rest;
      is_call = refl;
      f = f;
      t = t;
      lamports = lamports;
      space = space;
      owner = owner;
      facts = checked_lem from.pubkey to.pubkey lamports c f t e;
      left = ap (λ (r : Outcome (Unit {0}) × InvokeContext). r.1) k;
    }
    go (err x) e k = cc
    go panic e k = cc
run_create_lem [] d c c' h = cc
run_create_lem (from ∷ []) d c c' h = cc
run_create_lem (from ∷ to ∷ rest) [] c c' h = cc
run_create_lem (from ∷ to ∷ rest) (a ∷ []) c c' h = cc
run_create_lem (from ∷ to ∷ rest) (a ∷ b ∷ []) c c' h = cc
run_create_lem (from ∷ to ∷ rest) (a ∷ b ∷ e ∷ x ∷ y) c c' h = cc

empty : (xs : Bytes) → length xs ≡ 0 → xs ≡ []
empty [] e = refl
empty (y ∷ ys) e = absurd (omega arith)

-- Accounts with data are left alone.
pub run_create-keeps :
    (call : List AccountMeta) (d : Bytes) (c c' : InvokeContext) (x : ℕ)
    → run_create call d c ≡ (ok tt, c')
    → (c.cells x).data_bytes ≢ []
    → c'.cells x ≡ c.cells x
run_create-keeps call d c c' x h nonempty =
    let r = run_create_lem call d c c' h in
    let nf : r.f.cell ≢ x =
      λ e. nonempty (empty _ (subst (λ y. length (c.cells y).data_bytes ≡ 0) e r.facts.f_empty)) in
    let nt : r.t.cell ≢ x =
      λ e. nonempty (empty _ (subst (λ y. length (c.cells y).data_bytes ≡ 0) e r.facts.t_empty)) in
    ap (λ (e : InvokeContext). e.cells x) (sym r.left)
    ∙ update_ne (paid c.cells r.f r.lamports) r.t.cell x _ nt
    ∙ update_ne c.cells r.f.cell x _ nf

pub run_create-keyed_accounts :
    (call : List AccountMeta) (d : Bytes) (c c' : InvokeContext)
    → run_create call d c ≡ (ok tt, c')
    → c'.keyed_accounts ≡ c.keyed_accounts
run_create-keyed_accounts call d c c' h =
    ap (λ (e : InvokeContext). e.keyed_accounts) (sym (run_create_lem call d c c' h).left)

all_empty-at :
    (k : Pubkey) (accounts : List KeyedAccount) (cells : Cells) (i : ℕ) (a : KeyedAccount)
    → all_empty k accounts cells ≡ true
    → keyed_account_at_index accounts i ≡ ok a
    → a.unsigned_key ≡ k
    → (cells a.cell).data_bytes ≡ []
all_empty-at k [] cells i a e h s = cc
all_empty-at k (x ∷ rest) cells zero a e h s =
    let same : x ≡ a = cc in
    let key : x.unsigned_key ≡ k = ap (λ (y : KeyedAccount). y.unsigned_key) same ∙ s in
    subst (λ (y : KeyedAccount). (cells y.cell).data_bytes ≡ []) same
      (empty (cells x.cell).data_bytes (ground arith))
all_empty-at k (x ∷ rest) cells (suc i) a e h s = all_empty-at k rest cells i a (ground arith) h s

-- No account under the new account's key had data.
pub run_create-new :
    (from to : AccountMeta) (rest : List AccountMeta) (d : Bytes) (c c' : InvokeContext)
    (accounts : List KeyedAccount) (i : ℕ) (a : KeyedAccount)
    → run_create (from ∷ to ∷ rest) d c ≡ (ok tt, c')
    → c.keyed_accounts ≡ ok accounts
    → keyed_account_at_index accounts i ≡ ok a
    → a.unsigned_key ≡ to.pubkey
    → (c.cells a.cell).data_bytes ≡ []
run_create-new from to rest d c c' accounts i a h given at same =
    let r = run_create_lem (from ∷ to ∷ rest) d c c' h in
    let to_same : r.to ≡ to = cc (r.is_call) in
    let accounts_same : r.facts.accounts ≡ accounts = cc (r.facts.given) in
    all_empty-at to.pubkey accounts c.cells i a
      (subst₂ (λ (m : AccountMeta) l. all_empty m.pubkey l c.cells ≡ true) to_same accounts_same
        r.facts.new_empty)
      at same

-- An account that is found stands in the list, under the key.
lookup_key-index :
    (k : Pubkey) (accounts : List KeyedAccount) (a : KeyedAccount)
    → lookup_key k accounts ≡ ok a
    → (i : ℕ) × (keyed_account_at_index accounts i ≡ ok a) × (a.unsigned_key ≡ k)
lookup_key-index k [] a h = cc
lookup_key-index k (x ∷ rest) a h = go (x.unsigned_key == k) refl h (lookup_key-index k rest a)
  where
    go :
        (b : Bool)
        → (x.unsigned_key == k) ≡ b
        → (if b then ok x else lookup_key k rest) ≡ ok a
        → (lookup_key k rest ≡ ok a
            → (i : ℕ) × (keyed_account_at_index rest i ≡ ok a) × (a.unsigned_key ≡ k))
        → (i : ℕ) × (keyed_account_at_index (x ∷ rest) i ≡ ok a) × (a.unsigned_key ≡ k)
    go true e h ih =
        let same : x ≡ a = cc in
        (0, h, subst (λ (y : KeyedAccount). y.unsigned_key ≡ k) same (ground arith))
    go false e h ih = let (i, at, key) = ih h in (suc i, at, key)

-- The new account has the length that was asked for.
pub run_create-space :
    (from to : AccountMeta) (rest : List AccountMeta) (lamports space : ℕ) (owner : Pubkey)
    (c c' : InvokeContext) (accounts : List KeyedAccount) (a : KeyedAccount)
    → run_create (from ∷ to ∷ rest) (lamports ∷ space ∷ owner ∷ []) c ≡ (ok tt, c')
    → c.keyed_accounts ≡ ok accounts
    → ((j : ℕ) (b : KeyedAccount)
        → keyed_account_at_index accounts j ≡ ok b
        → b.unsigned_key ≡ a.unsigned_key
        → b.cell ≡ a.cell)
    → a.unsigned_key ≡ to.pubkey
    → length (c'.cells a.cell).data_bytes ≡ space
unfolding run_create
run_create-space from to rest lamports space owner c c' accounts a h given one key =
    go (checked from.pubkey to.pubkey lamports c) refl h
  where
    go :
        (r : Outcome (KeyedAccount × KeyedAccount))
        → checked from.pubkey to.pubkey lamports c ≡ r
        → settle r lamports space owner c ≡ (ok tt, c')
        → length (c'.cells a.cell).data_bytes ≡ space
    go (ok (f, t)) e k =
        let facts = checked_lem from.pubkey to.pubkey lamports c f t e in
        let same : facts.accounts ≡ accounts = cc (facts.given) in
        let (i, at, found) = lookup_key-index to.pubkey facts.accounts t facts.t_found in
        let cell =
          one i t (subst (λ l. keyed_account_at_index l i ≡ ok t) same at) (found ∙ sym key) in
        let new : Account = record (c.cells t.cell) {
          lamports = (c.cells t.cell).lamports + lamports;
          data_bytes = replicate space 0;
          owner = owner;
        } in
        ap (λ (r : Outcome (Unit {0}) × InvokeContext). length (r.1.cells a.cell).data_bytes)
          (sym k)
        ∙ ap (λ x. length (created c.cells f t lamports space owner x).data_bytes) (sym cell)
        ∙ ap (λ (x : Account). length x.data_bytes)
            (update_self (paid c.cells f lamports) t.cell new)
        ∙ length-replicate space 0
    go (err x) e k = cc
    go panic e k = cc

pub run_create-caller :
    (call : List AccountMeta) (d : Bytes) (c c' : InvokeContext)
    → run_create call d c ≡ (ok tt, c')
    → c'.caller ≡ c.caller
run_create-caller call d c c' h =
    ap (λ (e : InvokeContext). e.caller) (sym (run_create_lem call d c c' h).left)

lookup_key-returns : (k : Pubkey) (accounts : List KeyedAccount) → lookup_key k accounts ≢ panic
lookup_key-returns k [] e = cc
lookup_key-returns k (x ∷ rest) e = ground (arith, lookup_key-returns k rest)

checked-returns :
    (from to : Pubkey) (lamports : ℕ) (c : InvokeContext) (accounts : List KeyedAccount)
    → c.keyed_accounts ≡ ok accounts
    → checked from to lamports c ≢ panic
checked-returns from to lamports c accounts given e =
    ground (arith, lookup_key-returns from accounts, lookup_key-returns to accounts)

settle-returns :
    (r : Outcome (KeyedAccount × KeyedAccount)) (lamports space : ℕ) (owner : Pubkey)
    (c : InvokeContext)
    → r ≢ panic
    → (settle r lamports space owner c).0 ≢ panic
settle-returns (ok (f, t)) lamports space owner c h e = cc
settle-returns (err x) lamports space owner c h e = cc
settle-returns panic lamports space owner c h e = h refl

pub run_create-returns :
    (from to : AccountMeta) (rest : List AccountMeta) (lamports space : ℕ) (owner : Pubkey)
    (c : InvokeContext) (accounts : List KeyedAccount)
    → c.keyed_accounts ≡ ok accounts
    → (run_create (from ∷ to ∷ rest) (lamports ∷ space ∷ owner ∷ []) c).0 ≢ panic
unfolding run_create
run_create-returns from to rest lamports space owner c accounts given =
    settle-returns (checked from.pubkey to.pubkey lamports c) lamports space owner c
      (checked-returns from.pubkey to.pubkey lamports c accounts given)

lookup_key-below :
    (n : ℕ) (k : Pubkey) (accounts : List KeyedAccount) (a : KeyedAccount)
    → AllBelow n accounts
    → lookup_key k accounts ≡ ok a
    → a.cell < n
lookup_key-below n k [] a h e = cc
lookup_key-below n k (x ∷ rest) a h e = ground (arith, lookup_key-below n k rest a)

created-total :
    (n : ℕ) (cells : Cells) (f t : KeyedAccount) (lamports space : ℕ) (owner : Pubkey)
    → f.cell < n
    → t.cell < n
    → f.cell ≢ t.cell
    → lamports ≤ (cells f.cell).lamports
    → total n (created cells f t lamports space owner) ≡ total n cells
created-total n cells f t lamports space owner lf lt two enough =
    let payer : Account = record (cells f.cell) { lamports = (cells f.cell).lamports - lamports } in
    let new : Account = record (cells t.cell) {
      lamports = (cells t.cell).lamports + lamports;
      data_bytes = replicate space 0;
      owner = owner;
    } in
    omega (
      arith,
      total-update n cells f.cell payer lf,
      total-update n (paid cells f lamports) t.cell new lt,
      ap (λ (a : Account). a.lamports) (update_ne cells f.cell t.cell payer two),
      enough,
    )

-- The lamports go from one account to the other.
pub run_create-total :
    (call : List AccountMeta) (d : Bytes) (c c' : InvokeContext) (accounts : List KeyedAccount)
    (n : ℕ)
    → run_create call d c ≡ (ok tt, c')
    → c.keyed_accounts ≡ ok accounts
    → AllBelow n accounts
    → total n c'.cells ≡ total n c.cells
run_create-total call d c c' accounts n h given below =
    let r = run_create_lem call d c c' h in
    let same : r.facts.accounts ≡ accounts = cc (r.facts.given) in
    let all = subst (AllBelow n) (sym same) below in
    let lf = lookup_key-below n r.from.pubkey r.facts.accounts r.f all r.facts.f_found in
    let lt = lookup_key-below n r.to.pubkey r.facts.accounts r.t all r.facts.t_found in
    ap (λ (e : InvokeContext). total n e.cells) (sym r.left)
    ∙ created-total n c.cells r.f r.t r.lamports r.space r.owner lf lt r.facts.two r.facts.enough
