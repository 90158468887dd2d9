-- ===== src/Hardware/Cpuid/Regs.antt =====
-- What x86cpuid.c takes from outside: the CPUID instruction, and the allocator. Bit fields of a
-- register are written by division and remainder.
use libtorque.Base.{ℕ, ◌/◌, ◌%◌, ◌^◌, Bool}

-- `gpregs[4]`: EAX, EBX, ECX and EDX, in this order.
pub record Regs : Type 0 where
  pub eax : ℕ
  pub ebx : ℕ
  pub ecx : ℕ
  pub edx : ℕ

-- The machine under the calling thread, pinned to one processor: `cpuid leaf subleaf` is the
-- instruction's answer, `cpuid_available` the test of the flags register, and the other fields are
-- the allocator's. Each request to grow an array asks for one element more than the last, so an
-- answer for each size covers every behaviour of `realloc` on one array.
pub record Machine : Type 0 where
  pub cpuid_available : Bool
  pub cpuid : ℕ → ℕ → Regs
  pub grow_memdescs : ℕ → Bool
  pub grow_tlbdescs : ℕ → Bool
  pub strdup_works : Bool

-- `(x >> k) & (2^w - 1)`
abbrev pub bits : ℕ → ℕ → ℕ → ℕ
bits x k w = x / 2 ^ k % 2 ^ w

abbrev pub u32 : ℕ
u32 = 2 ^ 32
