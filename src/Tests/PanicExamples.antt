-- ===== src/Tests/PanicExamples.antt =====
-- Instructions that do not panic, at concrete inputs.
use solana_sdk_sample.Base.{
  ℕ, zero, suc, ◌≡◌, ◌≢◌, refl, sym, ap, subst, ◌∙◌, false, List, [], ◌∷◌, arith, ◌==◌,
  if◌then◌else◌,
}
use solana_sdk_sample.Runtime.Outcome.{ok, panic}
use solana_sdk_sample.Runtime.Account.{KeyedAccount, keyed_account_at_index}
use solana_sdk_sample.Instruction
use solana_sdk_sample.Loader.Deploy.{create_instruction}
use solana_sdk_sample.Loader.Process.{process_loader_upgradeable_instruction}
use solana_sdk_sample.Loader.Panics.{IsTotal}
use solana_sdk_sample.Loader.Panics.Upgrade.{Small, Addressable}
use solana_sdk_sample.Loader.Panics.Deploy.{OneCell, MakesSpace}
use solana_sdk_sample.Loader.Panics.Any.{process_any-returns}
use solana_sdk_sample.Tests.DemoSdk.{demo_sdk, demo_sdk-IsStateCodec, demo_sdk-IsCreateAccount}
use solana_sdk_sample.Tests.System.{run_create-space, run_create-caller, run_create-returns}
use solana_sdk_sample.Tests.DeployExamples.{deploy_list, at_deploy}
use solana_sdk_sample.Tests.Codec.{state_returns_lem, set_state_returns_lem}

demo_sdk-IsTotal : IsTotal demo_sdk
demo_sdk-IsTotal = record {
  state_returns = state_returns_lem;
  set_state_returns = set_state_returns_lem;
  add_returns = λ a b e. ground arith;
  rent_returns = λ k d e. cc;
  clock_returns = λ k d e. cc;
}

-- A deployment.
deploy-MakesSpace : MakesSpace demo_sdk
unfolding create_instruction
deploy-MakesSpace = record {
  derive_returns = λ seeds k e. cc;
  invoke_returns =
      λ d len id signers c accounts given. run_create-returns _ _ _ _ _ _ c accounts given;
  makes_space = λ d len id signers c c' accounts i a e given one at key.
      run_create-space _ _ _ _ _ _ c c' accounts a e given
        (λ j b at_b same. one j i b a at_b at same) key;
  keeps_caller = λ d len id signers c c' e. run_create-caller _ _ c c' e;
}

-- The cell is a function of the key.
AllKeyed : (ℕ → ℕ) → List KeyedAccount → Type 0
AllKeyed f [] = Unit
AllKeyed f (a ∷ rest) = (a.cell ≡ f a.unsigned_key) × AllKeyed f rest

keyed_cell :
    (f : ℕ → ℕ) (accounts : List KeyedAccount) (i : ℕ) (a : KeyedAccount)
    → AllKeyed f accounts
    → keyed_account_at_index accounts i ≡ ok a
    → a.cell ≡ f a.unsigned_key
unfolding AllKeyed
keyed_cell f [] i a h e = cc
keyed_cell f (x ∷ rest) zero a h e =
    let same : x ≡ a = cc in subst (λ (y : KeyedAccount). y.cell ≡ f y.unsigned_key) same h.0
keyed_cell f (x ∷ rest) (suc i) a h e = keyed_cell f rest i a h.1 e

abbrev cell_of_key : ℕ → ℕ
cell_of_key k =
    if k == 3
    then 8
    else if k == 110
    then 10
    else if k == 101
    then 9
    else if k == 106
    then 6
    else if k == 100
    then 0
    else if k == 7
    then 1
    else 7

deploy_list-AllKeyed : AllKeyed cell_of_key deploy_list
unfolding AllKeyed
deploy_list-AllKeyed = omega arith

deploy_list-OneCell : OneCell deploy_list
deploy_list-OneCell i j x y ex ey same =
    keyed_cell cell_of_key deploy_list i x deploy_list-AllKeyed ex
    ∙ ap cell_of_key same
    ∙ sym (keyed_cell cell_of_key deploy_list j y deploy_list-AllKeyed ey)

deploy-Small : Small at_deploy
deploy-Small x = ground arith

deploy-Addressable : Addressable at_deploy
deploy-Addressable x = ground arith

process_any-returns_example :
    (process_loader_upgradeable_instruction demo_sdk 1 (2 ∷ 6 ∷ []) false at_deploy).0 ≢ panic
process_any-returns_example =
    process_any-returns demo_sdk deploy_list 1 (2 ∷ 6 ∷ []) false 3
      (Instruction.deploy_with_max_data_len 6) at_deploy demo_sdk-IsTotal demo_sdk-IsStateCodec
      demo_sdk-IsCreateAccount deploy-MakesSpace deploy_list-OneCell refl refl refl deploy-Small
      deploy-Addressable
