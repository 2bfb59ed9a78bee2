-- ===== src/Runtime/Outcome.antt =====
-- Results of fallible code: `Result<A, InstructionError>`, and a panic as a third outcome.
use solana_sdk_sample.Base.{ℕ, ◌+◌, Bool, leb, u64_bound, if◌then◌else◌}

-- The errors that the loader names; `other` stands for any that the SDK's functions return.
pub data InstructionError : Type 0 where
  account_already_initialized account_borrow_failed account_data_too_small : InstructionError
  account_not_executable arithmetic_overflow executable_account_not_rent_exempt : InstructionError
  immutable incorrect_authority incorrect_program_id insufficient_funds : InstructionError
  invalid_account_data invalid_argument invalid_instruction_data : InstructionError
  missing_required_signature not_enough_account_keys : InstructionError
  program_environment_setup_failure program_failed_to_compile : InstructionError
  program_failed_to_complete : InstructionError
  other : ℕ → InstructionError

pub data Outcome (A : Type 0) : Type 0 where
  ok : A → Outcome A
  err : InstructionError → Outcome A
  panic : Outcome A

-- The operator `?`
infixl 5 ◌>>=◌ ◌>>◌
abbrev pub ◌>>=◌ : {A B : Type 0} → Outcome A → (A → Outcome B) → Outcome B
ok a >>= f = f a
err e >>= f = err e
panic >>= f = panic

abbrev pub ◌>>◌ : {B : Type 0} → Outcome (Unit {0}) → Outcome B → Outcome B
m >> k = m >>= λ _. k

-- `if b { return Err(e); }`
abbrev pub fail_if : Bool → InstructionError → Outcome (Unit {0})
fail_if b e = if b then err e else ok tt

-- `a + b` on `u64`, with overflow checks
abbrev pub add_u64 : ℕ → ℕ → Outcome ℕ
add_u64 a b = if leb u64_bound (a + b) then panic else ok (a + b)
