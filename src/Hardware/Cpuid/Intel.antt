-- ===== src/Hardware/Cpuid/Intel.antt =====
-- hardware/x86cpuid.c: caches and TLBs of Intel processors, from the descriptor bytes of CPUID leaf
-- 2 and the cache parameters of leaf 4.
pub mod Bytes
pub mod Order
pub mod Halts
use libtorque.Base.{
  ℕ, zero, suc, ◌+◌, ◌-◌, ◌*◌, ◌/◌, ◌%◌, Bool, true, false, ◌&&◌, Option, none, some, Run, ok, err,
  fault, out_of_fuel, ◌>>=◌, ltb, leb, ◌==◌, if◌then◌else◌, nonzero,
}
use libtorque.Hardware.Desc.{Mem, Cpu, MemType, memtype_code, memtype_data, memtype_unified}
use libtorque.Hardware.Cpuid.Regs.{Regs, Machine, bits, u32}
use libtorque.Hardware.Cpuid.Tables.{get_intel_cache, get_intel_tlb, get_intel_trace}
use libtorque.Hardware.Cpuid.Arrays.{add_hwmem, add_tlb, match_memtype}

-- The bytes that say something else than a cache, a TLB or a trace cache.
abbrev pub is_special : ℕ → Bool
is_special d =
    if d == 0xf0 then true else if d == 0xf1 then true else if d == 0x40 then true else d == 0xff

-- The body of the loop over the bytes, for a descriptor that is not zero.
unfoldable pub decode_descriptor : Machine → ℕ → Cpu → Run Cpu
decode_descriptor m d cpu = elim (get_intel_cache d cpu.threadspercore) [
  | some mem ↦ if match_memtype cpu.memdescs mem then ok cpu else add_hwmem m mem cpu
  | none ↦ elim (get_intel_tlb d cpu.threadspercore) [
    | some tlb ↦ add_tlb m tlb cpu
    | none ↦ if get_intel_trace d then ok cpu else if is_special d then ok cpu else err cpu
  ]
]

-- `(gpregs[z] & mask) >> ((3u - y) * 8u)` is the byte `left` places up, with `left` = 3 - y.
decode_byte : Machine → ℕ → ℕ → Cpu → Run Cpu
decode_byte m reg left cpu =
    let d = bits reg (left * 8) 8 in if nonzero d then decode_descriptor m d cpu else ok cpu

-- `for(y = 0 ; y < 4 ; ++y)`, by the rounds left. Of the first register AL is not read.
decode_bytes : Machine → ℕ → ℕ → ℕ → Cpu → Run Cpu
decode_bytes m z reg zero cpu = ok cpu
decode_bytes m z reg (suc left) cpu = decode_byte m reg left cpu >>= λ cpu'.
    let rest = decode_bytes m z reg left cpu' in if (left == 1) && (z == 0) then ok cpu' else rest

-- A register with its top bit set holds no descriptors.
decode_register : Machine → ℕ → ℕ → Cpu → Run Cpu
unfolding decode_bytes decode_byte
decode_register m z reg cpu = if nonzero (bits reg 31 1) then ok cpu else decode_bytes m z reg 4 cpu

unfoldable pub decode_intel_func2 : Machine → Regs → Cpu → Run Cpu
unfolding decode_register
decode_intel_func2 m r cpu =
    decode_register m 0 r.eax cpu
    >>= decode_register m 1 r.ebx
    >>= decode_register m 2 r.ecx
    >>= decode_register m 3 r.edx

-- `while(!(ret = decode_intel_func2(cpu,gpregs)))`, by the repetitions left.
repeat_func2 : Machine → ℕ → Cpu → Run Cpu
repeat_func2 m zero cpu = out_of_fuel
repeat_func2 m (suc callreps) cpu = decode_intel_func2 m (m.cpuid 2 0) cpu >>= λ cpu'.
    let rest = repeat_func2 m callreps cpu' in if callreps == 0 then ok cpu' else rest

unfoldable pub id_intel_caches_old : Machine → ℕ → Cpu → Run Cpu
unfolding repeat_func2
id_intel_caches_old m maxlevel cpu =
    let callreps = bits (m.cpuid 2 0).eax 0 8 in
    if ltb maxlevel 2
    then err cpu
    else if callreps == 1
    then repeat_func2 m callreps cpu
    else err cpu

-- EAX[4..0]: the end of the list, a cache, or something unknown.
pub data CacheType : Type 0 where
  nullcache unknown_cache : CacheType
  cache_of : MemType → CacheType

abbrev pub cache_type : ℕ → CacheType
cache_type c =
    if c == 1
    then cache_of memtype_data
    else if c == 2
    then cache_of memtype_code
    else if c == 3
    then cache_of memtype_unified
    else if c == 0
    then nullcache
    else unknown_cache

-- The description in the registers of leaf 4, in 32-bit arithmetic.
abbrev pub leaf4_memory : MemType → Regs → Mem
leaf4_memory type r =
    let line = bits r.ebx 0 12 + 1 in
    let assoc = if nonzero (bits r.eax 9 1) then 1 else bits r.ebx 22 10 + 1 in
    record {
      memtype = type;
      linesize = line;
      associativity = assoc;
      totalsize = assoc * (bits r.ebx 12 9 + 1) * line * ((r.ecx + 1) % u32) % u32;
      sharedways = bits r.eax 14 12 + 1;
      level = bits r.eax 5 3;
    }

-- Cores per package, and threads per core where leaf 0xb does not tell them.
unfoldable pub share_cores : ℕ → ℕ → Cpu → Run Cpu
share_cores maxlevel cpp cpu =
    if cpu.coresperpackage == 0
    then (if ltb maxlevel 0xb
        then (if cpu.threadspercore / cpp == 0
            then err (record cpu { threadspercore = cpu.threadspercore / cpp })
            else ok
                (record cpu { threadspercore = cpu.threadspercore / cpp; coresperpackage = cpp }))
        else ok (record cpu { coresperpackage = cpp }))
    else if cpu.threadspercore == 0
    then fault
    else if ltb cpp (cpu.coresperpackage / cpu.threadspercore)
    then err cpu
    else ok cpu

unfoldable pub add_leaf4 : Machine → ℕ → MemType → Regs → Cpu → Run Cpu
add_leaf4 m maxlevel type r cpu =
    let mem = leaf4_memory type r in
    share_cores maxlevel (bits r.eax 26 6 + 1) cpu >>= λ cpu'.
    add_hwmem m
      (record mem {
        sharedways =
            if ltb mem.sharedways cpu'.threadspercore then cpu'.threadspercore else mem.sharedways;
      })
      cpu'

-- The locals that the nested loops change, beside `level` and `n`.
pub record Scan : Type 0 where
  pub cpu : Cpu
  pub maxdc : ℕ

abbrev pub resume : ℕ → Run Cpu → Run Scan
resume maxdc (ok cpu) = ok (record { cpu = cpu; maxdc = maxdc })
resume maxdc (err cpu) = err (record { cpu = cpu; maxdc = maxdc })
resume maxdc fault = fault
resume maxdc out_of_fuel = out_of_fuel

-- One round of the inner loop on a cache of level `lev`.
unfoldable pub see_cache : Machine → ℕ → ℕ → MemType → Regs → Scan → Run Scan
see_cache m maxlevel level type r s =
    let lev = bits r.eax 5 3 in
    let maxdc = if ltb s.maxdc lev then lev else s.maxdc in
    if lev == level
    then resume maxdc (add_leaf4 m maxlevel type r s.cpu)
    else ok (record s { maxdc = maxdc })

-- `do{ … }while(cachet != NULLCACHE)`
unfoldable pub scan_caches : ℕ → Machine → ℕ → ℕ → ℕ → Scan → Run Scan
scan_caches zero m maxlevel level n s = out_of_fuel
scan_caches (suc fuel) m maxlevel level n s =
    let r = m.cpuid 4 n in
    elim (cache_type (bits r.eax 0 5)) [
      | nullcache ↦ ok s
      | unknown_cache ↦ err s
      | cache_of type ↦
          see_cache m maxlevel level type r s >>= scan_caches fuel m maxlevel level (n + 1)
    ]

-- `do{ … }while(++level <= maxdc)`
unfoldable pub scan_levels : ℕ → ℕ → Machine → ℕ → ℕ → Scan → Run Scan
scan_levels zero inner m maxlevel level s = out_of_fuel
scan_levels (suc fuel) inner m maxlevel level s = scan_caches inner m maxlevel level 0 s >>= λ s'.
    let rest = scan_levels fuel inner m maxlevel (level + 1) s' in
    if leb (level + 1) s'.maxdc then rest else ok s'

abbrev pub scanned : Run Scan → Run Cpu
scanned (ok s) = ok s.cpu
scanned (err s) = err s.cpu
scanned fault = fault
scanned out_of_fuel = out_of_fuel

-- A level has three bits, so seven rounds of the outer loop are enough.
unfoldable pub id_intel_caches : ℕ → Machine → ℕ → Cpu → Run Cpu
id_intel_caches inner m maxlevel cpu =
    if ltb maxlevel 4
    then id_intel_caches_old m maxlevel (record cpu { coresperpackage = 1 })
    else scanned (scan_levels 8 inner m maxlevel 1 (record { cpu = cpu; maxdc = 1 }))
      >>= id_intel_caches_old m maxlevel
