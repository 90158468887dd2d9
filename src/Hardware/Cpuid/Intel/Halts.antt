-- ===== src/Hardware/Cpuid/Intel/Halts.antt =====
-- hardware/x86cpuid.c: the loops over CPUID leaf 4 end, without a division by zero, on a machine
-- whose list of caches ends.
use libtorque.Base.{
  ℕ, zero, suc, ◌+◌, ◌≤◌, ◌<◌, ◌≡◌, refl, true, Run, ok, err, fault, out_of_fuel, Returns-then,
  ◌>>=◌, arith, ltb, ◌==◌, Returns, ◌-◌, ℕ_discrete, Bool-cases, inl, inr,
}
use libtorque.Hardware.Desc.{Cpu, MemType}
use libtorque.Hardware.Cpuid.Regs.{Regs, Machine, bits}
use libtorque.Hardware.Cpuid.Arrays.{add_hwmem}
use libtorque.Hardware.Cpuid.Intel.{
  share_cores, add_leaf4, Scan, see_cache, scan_caches, scan_levels, cache_type, CacheType,
  nullcache, unknown_cache, cache_of, scanned, id_intel_caches, id_intel_caches_old, repeat_func2,
  decode_intel_func2,
}
use libtorque.Hardware.Cpuid.Intel.Bytes.{decode_intel_func2-Returns}

-- What the inner loop keeps: the threads per core are known, the deepest level has three bits.
record InRange (s : Scan) : Type 0 where
  threads : 0 < s.cpu.threadspercore
  depth : s.maxdc < 8

-- A step returns, and where it succeeds the state is in range.
abbrev Steps : Run Scan → Type 0
Steps (ok s) = InRange s
Steps (err s) = Unit
Steps fault = ⊥
Steps out_of_fuel = ⊥

see_cache-Steps :
    (m : Machine) (maxlevel level : ℕ) (type : MemType) (r : Regs) (s : Scan)
    → InRange s
    → Steps (see_cache m maxlevel level type r s)
unfolding see_cache add_leaf4 share_cores add_hwmem
see_cache-Steps m maxlevel level type r s v = ground arith

Steps-bind :
    (r : Run Scan) (f : Scan → Run Scan)
    → Steps r
    → ((s : Scan) → InRange s → Steps (f s))
    → Steps (r >>= f)
Steps-bind (ok s) f h k = k s h
Steps-bind (err s) f h k = tt
Steps-bind fault f h k = h
Steps-bind out_of_fuel f h k = h

-- Subleaf `k` ends the list of caches.
abbrev pub ListEnds : Machine → ℕ → Type 0
ListEnds m k = bits (m.cpuid 4 k).eax 0 5 ≡ 0

scan_caches-Steps :
    (fuel : ℕ) (m : Machine) (maxlevel level n k : ℕ) (s : Scan)
    → ListEnds m k
    → n ≤ k
    → k < n + fuel
    → InRange s
    → Steps (scan_caches fuel m maxlevel level n s)
unfolding scan_caches
scan_caches-Steps zero m maxlevel level n k s e p q v = absurd (omega arith)
scan_caches-Steps (suc fuel) m maxlevel level n k s e p q v =
    round (cache_type (bits (m.cpuid 4 n).eax 0 5)) refl
      (λ h s' w. scan_caches-Steps fuel m maxlevel level (n + 1) k s' e h (omega arith) w)
  where
    round :
        (c : CacheType)
        → cache_type (bits (m.cpuid 4 n).eax 0 5) ≡ c
        → (n + 1 ≤ k
            → (s' : Scan) → InRange s'
            → Steps (scan_caches fuel m maxlevel level (n + 1) s'))
        → Steps (elim c [
          | nullcache ↦ ok s
          | unknown_cache ↦ err s
          | cache_of type ↦
              see_cache m maxlevel level type (m.cpuid 4 n) s
              >>= scan_caches fuel m maxlevel level (n + 1)
        ])
    round nullcache c ih = v
    round unknown_cache c ih = tt
    round (cache_of type) c ih =
        Steps-bind _ _ (see_cache-Steps m maxlevel level type (m.cpuid 4 n) s v)
          (ih (not_last (ℕ_discrete n k)))
      where
        not_last : Dec (n ≡ k) → n + 1 ≤ k
        not_last (yes here) = absurd (differ (rw (← here) at e))
          where
            differ : bits (m.cpuid 4 n).eax 0 5 ≡ 0 → ⊥
            differ z = ground arith
        not_last (no there) = omega arith

scan_levels-Steps :
    (fuel inner : ℕ) (m : Machine) (maxlevel level k : ℕ) (s : Scan)
    → ListEnds m k
    → k < inner
    → 8 - level < fuel
    → InRange s
    → Steps (scan_levels fuel inner m maxlevel level s)
unfolding scan_levels
scan_levels-Steps zero inner m maxlevel level k s e p q v = absurd (omega arith)
scan_levels-Steps (suc fuel) inner m maxlevel level k s e p q v =
    Steps-bind _ _ (scan_caches-Steps inner m maxlevel level 0 k s e (omega arith) (omega arith) v)
      λ s' w. ground (arith, w.depth, scan_levels-Steps fuel inner m maxlevel (level + 1) k s' e p)

repeat_func2_once :
    (m : Machine) (callreps : ℕ) (cpu : Cpu)
    → (callreps == 1) ≡ true
    → Returns (repeat_func2 m callreps cpu)
unfolding repeat_func2
repeat_func2_once m zero cpu e = cc
repeat_func2_once m (suc zero) cpu e =
    Returns-then (decode_intel_func2 m (m.cpuid 2 0) cpu) _
      (decode_intel_func2-Returns m (m.cpuid 2 0) cpu) λ s. tt
repeat_func2_once m (suc (suc c)) cpu e = absurd (ground arith)

-- Leaf 2 is read at most once, and is decoded without undefined behaviour.
pub id_intel_caches_old-Returns :
    (m : Machine) (maxlevel : ℕ) (cpu : Cpu) → Returns (id_intel_caches_old m maxlevel cpu)
unfolding id_intel_caches_old
id_intel_caches_old-Returns m maxlevel cpu = elim (Bool-cases (bits (m.cpuid 2 0).eax 0 8 == 1)) [
  | inl e ↦
      rw (e, id_intel_caches_old)
        (ground (arith, repeat_func2_once m (bits (m.cpuid 2 0).eax 0 8) cpu e))
  | inr e ↦ rw (e, id_intel_caches_old) (ground arith)
]

scanned-Returns : (r : Run Scan) → Steps r → Returns (scanned r)
scanned-Returns (ok s) h = tt
scanned-Returns (err s) h = tt
scanned-Returns fault h = h
scanned-Returns out_of_fuel h = h

-- Where the list of caches in leaf 4 ends at subleaf `k` and the threads per core are known,
-- id_intel_caches returns: more than `k` rounds of the inner loop and eight of the outer one are
-- enough, and it does not divide by zero.
pub id_intel_caches-Returns :
    (inner : ℕ) (m : Machine) (maxlevel k : ℕ) (cpu : Cpu)
    → ListEnds m k
    → k < inner
    → 0 < cpu.threadspercore
    → Returns (id_intel_caches inner m maxlevel cpu)
unfolding id_intel_caches
id_intel_caches-Returns inner m maxlevel k cpu e h t = elim (Bool-cases (ltb maxlevel 4)) [
  | inl low ↦ rw (low, id_intel_caches) (id_intel_caches_old-Returns m maxlevel _)
  | inr high ↦
      rw (high, id_intel_caches)
        (Returns-then _ _
          (scanned-Returns _ (
            scan_levels-Steps 8 inner m maxlevel 1 k _ e h (omega arith)
              (record { threads = t; depth = omega arith })))
          (id_intel_caches_old-Returns m maxlevel))
]
