-- ===== src/Runtime/Action.antt =====
-- Actions on the invoke context: an action returns an outcome and the context that it leaves. What
-- was written before an error stays written, since the roll back is the runtime's.
pub mod Triple
pub mod At
pub mod Success
pub mod Calm
pub mod Ends
pub mod Steps
use solana_sdk_sample.Base.{ℕ, ◌≡◌, refl, Bool, true, false, List, ◌==◌, if◌then◌else◌}
use solana_sdk_sample.Runtime.Outcome.{
  Outcome, ok, err, panic, InstructionError, account_borrow_failed,
}
use solana_sdk_sample.Runtime.Account.{Account, Cells, KeyedAccount, InvokeContext, update}

abbrev pub Action : Type 0 → Type 0
Action A = InvokeContext → Outcome A × InvokeContext

abbrev pub and_then : {A B : Type 0} → Outcome A → (A → Action B) → Action B
and_then (ok a) f c = f a c
and_then (err e) f c = (err e, c)
and_then panic f c = (panic, c)

-- Code that reads the context and changes nothing.
unfoldable pub reads : {A : Type 0} → (InvokeContext → Outcome A) → Action A
reads f c = (f c, c)

unfoldable pub lift : {A : Type 0} → Outcome A → Action A
lift r c = (r, c)

unfoldable pub pure : {A : Type 0} → A → Action A
pure a c = (ok a, c)

unfoldable pub when : Bool → Action (Unit {0}) → Action (Unit {0})
when b m c = if b then m c else (ok tt, c)

abbrev pub put_account : ℕ → Outcome Account → Action (Unit {0})
put_account cell (ok a) c = (ok tt, record c { cells = update c.cells cell a })
put_account cell (err e) c = (err e, c)
put_account cell panic c = (panic, c)

-- Change one account in place.
unfoldable pub modify_account : ℕ → (Account → Outcome Account) → Action (Unit {0})
modify_account cell f c = put_account cell (f (c.cells cell)) c

infixl 5 ◌>>=◌ ◌>>◌
-- Opening this opens the actions above too.
unfoldable pub ◌>>=◌ : {A B : Type 0} → Action A → (A → Action B) → Action B
unfolding reads lift pure when modify_account
◌>>=◌ m f c = let (r, c') = m c in and_then r f c'

abbrev pub ◌>>◌ : {B : Type 0} → Action (Unit {0}) → Action B → Action B
m >> k = m >>= λ _. k

-- `account.lamports()?` while the account in `held` is mutably borrowed
abbrev pub lamports_while : ℕ → ℕ → InvokeContext → Outcome ℕ
lamports_while held cell c =
    if held == cell then err account_borrow_failed else ok (c.cells cell).lamports
