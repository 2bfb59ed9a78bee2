-- ===== src/Loader/Buffer/Upload.antt =====
-- A program that is uploaded in chunks, one Write after another.
use solana_sdk_sample.Base.{
  ℕ, ◌+◌, ◌≡◌, refl, ap, sym, subst, ◌∙◌, List, [], ◌∷◌, ◌++◌, arith, length, take, drop,
  length-append, take-le, take-add, drop-drop, take-drop,
}
use solana_sdk_sample.Runtime.Outcome.{ok}
use solana_sdk_sample.Runtime.Account.{
  Bytes, Cells, KeyedAccount, InvokeContext, keyed_account_at_index,
}
use solana_sdk_sample.Runtime.Sdk.{Sdk}
use solana_sdk_sample.Runtime.Sdk.Laws.{IsStateCodec}
use solana_sdk_sample.Loader.Buffer.{write}
use solana_sdk_sample.Loader.Buffer.Laws.{Written, write-Written}

-- The bytes of the chunks, in order.
abbrev pub concat : List Bytes → Bytes
concat [] = []
concat (bytes ∷ chunks) = bytes ++ concat chunks

-- Successful Writes of chunks, each at the offset where the one before it ended. Each instruction
-- gets a context of its own, with the cells that the one before it left.
pub data Uploads (sdk : Sdk) (accounts : List KeyedAccount) (first : ℕ) (e : InvokeContext)
    : ℕ → List Bytes → InvokeContext → Type 0 where
  done : {offset : ℕ} → Uploads sdk accounts first e offset [] e
  next :
      {offset : ℕ} {bytes : Bytes} {chunks : List Bytes} {c d : InvokeContext}
      → (given : InvokeContext) → given.cells ≡ c.cells
      → given.keyed_accounts ≡ ok accounts
      → write sdk accounts first offset bytes given ≡ (ok tt, d)
      → Uploads sdk accounts first e (offset + length bytes) chunks d
      → Uploads sdk accounts first e offset (bytes ∷ chunks) c

-- `Written` reads the cells of the first context only.
pub Written-from :
    (sdk : Sdk) (start : ℕ) (bytes : Bytes) (cell : ℕ) (c d e : InvokeContext)
    → c.cells ≡ d.cells
    → Written sdk start bytes cell c e
    → Written sdk start bytes cell d e
Written-from sdk start bytes cell c d e same w =
    subst (λ (cells : Cells). Written sdk start bytes cell (record d { cells = cells }) e) same
      (record {
        range_written = w.range_written;
        before_kept = w.before_kept;
        behind_kept = w.behind_kept;
        length_kept = w.length_kept;
        state_kept = w.state_kept;
        lamports_kept = w.lamports_kept;
        others_kept = w.others_kept;
      })

pub Written-nil : (sdk : Sdk) (start cell : ℕ) (c : InvokeContext) → Written sdk start [] cell c c
Written-nil sdk start cell c = record {
  range_written = refl;
  before_kept = refl;
  behind_kept = refl;
  length_kept = refl;
  state_kept = refl;
  lamports_kept = refl;
  others_kept = λ q ne. refl;
}

-- A range, and then the one behind it.
pub Written-append :
    (sdk : Sdk) (start : ℕ) (xs ys : Bytes) (cell : ℕ) (c d e : InvokeContext)
    → Written sdk start xs cell c d
    → Written sdk (start + length xs) ys cell d e
    → Written sdk start (xs ++ ys) cell c e
Written-append sdk start xs ys cell c d e v w =
    let old = (c.cells cell).data_bytes in
    let middle = (d.cells cell).data_bytes in
    let new = (e.cells cell).data_bytes in
    let total : length (xs ++ ys) ≡ length xs + length ys = length-append xs ys in
    let end_of : start + length (xs ++ ys) ≡ start + length xs + length ys = omega (arith, total) in
    let first_kept : take (length xs) (drop start new) ≡ take (length xs) (drop start middle) =
      take-drop start (length xs) (start + length xs) new refl
      ∙ ap (drop start) w.before_kept
      ∙ sym (take-drop start (length xs) (start + length xs) middle refl) in
    record {
      range_written =
          take-add (length xs) (length ys) (length (xs ++ ys)) (drop start new) total
          ∙ cong₂ (first_kept ∙ v.range_written) (
              ap (take (length ys)) (drop-drop start (length xs) (start + length xs) new refl)
              ∙ w.range_written);
      before_kept =
          take-le start (start + length xs) new middle (omega arith) w.before_kept ∙ v.before_kept;
      behind_kept =
          ap (λ n. drop n new) end_of
          ∙ w.behind_kept
          ∙ sym (drop-drop (start + length xs) (length ys) _ middle refl)
          ∙ ap (drop (length ys)) v.behind_kept
          ∙ drop-drop (start + length xs) (length ys) _ old refl
          ∙ ap (λ n. drop n old) (sym end_of);
      length_kept = w.length_kept ∙ v.length_kept;
      state_kept = w.state_kept ∙ v.state_kept;
      lamports_kept = w.lamports_kept ∙ v.lamports_kept;
      others_kept = λ q ne. w.others_kept q ne ∙ v.others_kept q ne;
    }
  where
    cong₂ : {a b a' b' : Bytes} → a ≡ b → a' ≡ b' → a ++ a' ≡ b ++ b'
    cong₂ p q = λ i. p i ++ q i

-- Successful Writes of consecutive chunks from an offset on put the whole of the chunks at that
-- offset behind the buffer's metadata. Nothing else changes: not the rest of the data, the state and
-- its authority, the lamports, or any other account.
pub Uploads-Written :
    (sdk : Sdk) (accounts : List KeyedAccount) (first : ℕ) (buffer authority : KeyedAccount)
    (e : InvokeContext) (offset : ℕ) (chunks : List Bytes) (c : InvokeContext)
    → IsStateCodec sdk
    → keyed_account_at_index accounts first ≡ ok buffer
    → keyed_account_at_index accounts (first + 1) ≡ ok authority
    → Uploads sdk accounts first e offset chunks c
    → Written sdk (37 + offset) (concat chunks) buffer.cell c e
Uploads-Written sdk accounts first buffer authority e offset chunks c codec eb ea done =
    Written-nil sdk (37 + offset) buffer.cell c
Uploads-Written sdk accounts first buffer authority e offset chunks c codec eb ea
      (next {offset = o} {bytes = bytes} {chunks = rest} {c = b} {d = d} given same has run more) =
    Written-append sdk (37 + o) bytes (concat rest) buffer.cell b d e
      (Written-from sdk (37 + o) bytes buffer.cell given b d same
        (write-Written sdk accounts first o bytes given d buffer authority codec has eb ea run))
      (subst (λ n. Written sdk n (concat rest) buffer.cell d e) (omega arith)
        (Uploads-Written sdk accounts first buffer authority e (o + length bytes) rest d codec eb ea
          more))
