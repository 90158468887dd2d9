-- ===== src/Errors.antt =====
-- libtorque/torque.h: the errors of the library.

pub mod Messages
use libtorque.Base.{ℕ}

-- `torque_err`, without the value for success and the sentinel for system calls.
pub data TorqueErr : Type 0 where
  assert cpudetect gpudetect memdetect affinity resource inval unavail : TorqueErr

-- How a call that returns a `torque_err` ends: with an error it leaves its state behind too.
pub data Outcome (S : Type 0) : Type 0 where
  done : S → Outcome S
  failed : TorqueErr → S → Outcome S
  fault : Outcome S
  out_of_fuel : Outcome S

abbrev pub and_then : {S : Type 0} → Outcome S → (S → Outcome S) → Outcome S
and_then (done s) f = f s
and_then (failed e s) f = failed e s
and_then fault f = fault
and_then out_of_fuel f = out_of_fuel

-- The values of the enumerators. `TORQUE_ERR_SYSCALL` is 9, and `errno` is added to it.
abbrev pub err_value : TorqueErr → ℕ
err_value assert = 1
err_value cpudetect = 2
err_value gpudetect = 3
err_value memdetect = 4
err_value affinity = 5
err_value resource = 6
err_value inval = 7
err_value unavail = 8

abbrev pub err_syscall : ℕ
err_syscall = 9
