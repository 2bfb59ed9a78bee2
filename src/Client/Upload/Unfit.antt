-- ===== src/Client/Upload/Unfit.antt =====
-- Programs for which the buffer account that the client makes is too small.
use solana_sdk_sample.Base.{ℕ, ◌^◌, ◌≤◌, ◌<◌, ◌≡◌, Bool, Option, some, length}
use mathlib.Core.Option
use solana_sdk_sample.Runtime.Account.{Pubkey, Bytes, KeyedAccount, InvokeContext}
use solana_sdk_sample.Runtime.Sdk.{Sdk}
use solana_sdk_sample.Runtime.Sdk.Laws.{IsStateCodec}
use solana_sdk_sample.Instruction.{Call}
use solana_sdk_sample.Client.Layout.{IsBincode}
use solana_sdk_sample.Client.Upload.{call_of}

module _ (sdk : Sdk) (codec : IsStateCodec sdk) (bincode : IsBincode sdk) (cell_of : Pubkey → ℕ)
    (loader : KeyedAccount) (jit : Bool) (buffer payer : Pubkey) where
  abbrev size_at : InvokeContext → ℕ
  size_at c = length (c.cells (cell_of buffer)).data_bytes

  -- What a run leaves, if it ends without an error, has a buffer of the same size.
  abbrev SameSize : InvokeContext → Option InvokeContext → Type 0
  SameSize c r = (e : InvokeContext) → r ≡ some e → size_at e ≡ size_at c

  module _ (offset : ℕ) (bytes : Bytes) (small : offset < 2 ^ 32) (short : length bytes ≤ 600) where
    abbrev call : Call
    call = call_of sdk codec bincode cell_of loader jit buffer payer offset bytes
