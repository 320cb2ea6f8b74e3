-- ===== src/Base/Errors.antt =====
-- The error codes of include/lib/errcode.h and include/kernel/vm.h, and what a system call
-- returns: a non-negative number or one of the codes.
use Prim.Native.Nat.{ℕ}

pub data Err : Type 0 where
  nomem exist notexist ftype end_reached fault_addr inval child vm_bound vm_invalid : Err

pub data SysRet : Type 0 where
  value : ℕ → SysRet
  error : Err → SysRet
