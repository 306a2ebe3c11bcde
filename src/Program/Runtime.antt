-- ===== src/Program/Runtime.antt =====
-- What the program runs on: the accounts of a transaction, and the runtime's calls, which are
-- parameters.
use groth16_verifier_program.Common.{ℕ, Bool, List, Bytes, Result, if◌then◌else◌, bytes_eq}
use groth16_verifier_program.Groth16.Syscall.{Syscalls}
use groth16_verifier_program.Program.Errors.{ProgramError}

pub record Account : Type 0 where
  pub owner : Bytes
  pub lamports : ℕ
  pub contents : Bytes

-- Accounts by address. Two views of one address show the same account.
abbrev pub Store : Type 0
Store = Bytes → Account

unfoldable pub update : Store → Bytes → Account → Store
unfolding bytes_eq
update st a acc b = if bytes_eq a b then acc else st b

-- `AccountView`: what an instruction was told of an account.
pub record View : Type 0 where
  pub address : Bytes
  pub is_signer : Bool
  pub is_writable : Bool

-- The calls of pinocchio, of the system program and of the hash library. The seeds are the signer
-- seeds of `invoke_signed`.
pub record Runtime : Type 0 where
  pub syscalls : Syscalls
  pub sha256 : Bytes → Bytes
  pub find_program_address : List Bytes → Bytes → Bytes × ℕ
  -- `Rent::get()?.try_minimum_balance(space)`
  pub try_minimum_balance : ℕ → Result ProgramError ℕ
  -- `Transfer { from, to, lamports }.invoke()`
  pub transfer : Bytes → Bytes → ℕ → Store → Result ProgramError Store
  -- `Allocate { account, space }.invoke_signed(seeds)`
  pub allocate : Bytes → ℕ → List Bytes → Store → Result ProgramError Store
  -- `Assign { account, owner }.invoke_signed(seeds)`
  pub assign : Bytes → Bytes → List Bytes → Store → Result ProgramError Store
  -- `AccountView::close`
  pub close : Account → Result ProgramError Account
