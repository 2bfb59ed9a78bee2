-- ===== src/Lib.antt =====
-- The BPF loader of Solana, the simple token, the deployment client and the Fireblocks connection of this
-- repository, modelled and proved.
--
-- The program's parts, and where each is modelled:
--
-- scripts/ref/bpf_loader/src/lib.rs, the loader program:
--   Loader.Accounts: what the handlers do to one account (check_authority, slices, lamports, state);
--   Loader.Buffer: write_program_data, InitializeBuffer and Write;
--   Loader.Deploy and Loader.Deploy.Commit: DeployWithMaxDataLen, its checks and its changes;
--   Loader.Upgrade and Loader.Upgrade.Commit: Upgrade, its checks and its changes;
--   Loader.Authority: SetAuthority; Loader.Close: Close and common_close_account;
--   Loader.Executor and Loader.Executor.Execute: create_executor, create_vm, Executor::execute;
--   Loader.Process: process_instruction and _jit, process_instruction_common,
--     process_loader_upgradeable_instruction, process_loader_instruction, check_loader_id;
--   Loader.Cache: theorems on the executor cache.
-- scripts/ref/bpf_loader_upgradable.rs: State (UpgradeableLoaderState and its sizes), Builders (the
--   functions that build instructions, and the tests on serialised ones).
-- scripts/ref/loader_upgradable_instruction.rs: Instruction (UpgradeableLoaderInstruction).
-- programs/simple-token/src/lib.rs: Token (the handlers), Token.Run (the instructions around them).
-- scripts/deployment/deploy.ts: Client (the sizes, the instruction data, the upload loop with its
--   retries, and deployProgram from the initialisation of the buffer on). Client.Layout states bincode's
--   layout of the three instructions that the client sends.
-- scripts/fireblocks/lib/helpers.ts: Fireblocks.Wait (waitForSignature).
-- scripts/fireblocks/lib/FireblocksConnectionAdapter.ts: Fireblocks.Adapter (the constructor, the
--   setters, create and setAccount), Fireblocks.Send (sendTransaction and signWithFireblocks).
--
-- The clients build instructions (Builders, Client); Runtime.Invoke says how the accounts that an
-- instruction lists become those of the loader's context. The runtime calls process_instruction with the
-- accounts of one; that runs a program (Loader.Executor) or an instruction of the loader itself, whose
-- handlers change accounts and the executor cache and invoke the system program.
--
-- Representation. A handler is an action on the invoke context: it returns an outcome and the context
-- that it leaves (Runtime.Action), and what it wrote before an error stays written, since the roll back
-- is the runtime's. An outcome is a value, an InstructionError or a panic (Runtime.Outcome): slices out
-- of range and overflows of `+` panic, as the release profile checks overflows. An account is a cell of
-- the context, and two keyed accounts may share one cell: the handlers find this where the code would,
-- by account_borrow_failed while one is mutably borrowed, and by the order of their writes else. Public
-- keys are numbers; bytes are lists of numbers; u64 and usize are native numbers with the bound 2 ^ 64.
-- One function runs on fuel: waitForSignature, whose loop has no limit. Its fuel is the number of calls
-- that it may still make, and a theorem says exactly which fuel is enough for a given sequence of
-- answers. All other recursion is on lists, on texts, on the retries left (four attempts for a chunk: one and
-- maxRetries = 3) and on the rounds left of the loop over the chunks, which is counted in the source too.
-- What becomes of an attempt to send a transaction is a parameter (Client.Network): it is lost, or lands
-- before the next one is made, and an instruction that fails is rolled back. What the client is told is
-- a parameter too, and independent of that, since confirmTransaction of the Fireblocks connection asks
-- no one: a lost or failed transaction may be reported as a success, and one that took effect as an
-- error. IsHonest says of an attempt that no success is reported but of an instruction that succeeded.
-- The wait after the first attempt for a chunk and after InitializeBuffer ends for a transaction that
-- landed; for a lost one only an error of a poll ends it, and that it may never end is not modelled, nor
-- is a transaction that lands after the next one is sent. Parameters are also the
-- answers to the calls that waitForSignature makes, a value or an error for each.
--
-- Parameters. The SDK, bincode, the runtime's native_invoke, solana_rbpf, the system calls and the
-- parameter serialisation are not in the repository: they are the fields of Runtime.Sdk, and what
-- the theorems ask of them is named: IsCheckedAdd, IsStateCodec (Runtime.Sdk.Laws), IsBalanced
-- (Loader.Lamports), IsCreateAccount (Loader.Frozen), IsTotal (Loader.Panics),
-- MakesSpace (Loader.Panics.Deploy), IsTagged
-- (Builders.Laws), IsInstructionCodec (Builders.Process, up to the size of a packet), IsBincode
-- (Client.Layout). What create_executor makes is described apart from it by IsMadeFrom
-- (Loader.Executor.Made), and what sendTransaction submits by Fireblocks.Send.Prepared. Anchor's
-- loading and writing back of accounts is the record Anchor, with IsFaithful (Token.Run). The Fireblocks and web3 packages are the records
-- Services and Web3, of which no law is asked. Tests instantiates them.
--
-- Proofs. Runtime.Action.Triple has the rules for what an action keeps when it succeeds, and
-- Runtime.Action.At those for a run from a known context; Runtime.Action.Success has those for an
-- action that succeeds, Runtime.Action.Calm those for one that does not panic, and
-- Runtime.Action.Ends those for every end of an action, errors included. Loader.Lamports
-- is on the sum of the lamports, Loader.Frozen on fixed accounts (Program accounts, and those
-- without an authority), each Laws or Whole module on its handler, each Exact or Success module on
-- when its handler succeeds, Loader.Panics on panics, Token.Supply on the number of tokens,
-- Client.Upload on the upload and Client.Deploy on the whole deployment.
--
-- Not modelled: logs, timers, traces, return data and debug assertions, which change no account; the
-- instructions ExtendProgram and SetAuthorityChecked in the processor, which handles neither, so that
-- their numbers are refused; of deploy.ts the files, the configuration, the two account creations, the
-- fee estimate, a wait for a confirmation that never ends, and transactions that land late; of the Fireblocks connection its logger, its delays,
-- validateConfig, which is never called, and confirmTransaction, which returns a constant; the other
-- TypeScript scripts, which only call external services.
pub mod Base
pub mod Runtime
pub mod State
pub mod Instruction
pub mod Loader
pub mod Builders
pub mod Client
pub mod Fireblocks
pub mod Token
mod Tests
