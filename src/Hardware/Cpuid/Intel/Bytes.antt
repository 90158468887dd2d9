-- ===== src/Hardware/Cpuid/Intel/Bytes.antt =====
-- hardware/x86cpuid.c: decode_intel_func2 against the list of descriptor bytes in the registers.
use mathlib.Core.List.{append-nil}
use libtorque.Base.{
  ℕ, zero, suc, ◌*◌, ◌==◌, not, ◌≡◌, refl, Bool, true, false, ◌&&◌, List, [], ◌∷◌, ◌++◌, Run, ok,
  ◌>>=◌, arith, if◌then◌else◌, nonzero, Bool-cases, inl, inr, bind_cong, bind_assoc, bind-ok,
  Returns, Returns-then, sym, ap, ◌∙◌,
}
use libtorque.Hardware.Desc.{Cpu}
use libtorque.Hardware.Cpuid.Regs.{Regs, Machine, bits}
use libtorque.Hardware.Cpuid.Arrays.{add_hwmem, add_tlb}
use libtorque.Hardware.Cpuid.Intel.{
  decode_descriptor, decode_byte, decode_bytes, decode_register, decode_intel_func2,
}

-- The bytes of a register that are not zero, from the top.
abbrev byte_list : ℕ → ℕ → List ℕ
byte_list reg left = let d = bits reg (left * 8) 8 in if nonzero d then d ∷ [] else []

abbrev pub register_bytes : Bool → ℕ → List ℕ
register_bytes al reg =
    if nonzero (bits reg 31 1)
    then []
    else byte_list reg 3
      ++ (byte_list reg 2 ++ (byte_list reg 1 ++ (if al then byte_list reg 0 else [])))

-- What leaf 2 says: each valid register's bytes, without AL.
abbrev pub descriptor_bytes : Regs → List ℕ
descriptor_bytes r =
    ((register_bytes false r.eax ++ register_bytes true r.ebx) ++ register_bytes true r.ecx)
    ++ register_bytes true r.edx

unfoldable pub decode_all : Machine → List ℕ → Cpu → Run Cpu
decode_all m [] cpu = ok cpu
decode_all m (d ∷ ds) cpu = decode_descriptor m d cpu >>= decode_all m ds

decode_all-append :
    (m : Machine) (ds es : List ℕ) (cpu : Cpu)
    → decode_all m (ds ++ es) cpu ≡ (decode_all m ds cpu >>= decode_all m es)
unfolding decode_all
decode_all-append m [] es cpu = refl
decode_all-append m (d ∷ ds) es cpu =
    bind_cong (decode_descriptor m d cpu) _ _ (decode_all-append m ds es)
    ∙ sym (bind_assoc (decode_descriptor m d cpu) (decode_all m ds) (decode_all m es))

decode_byte-eq :
    (m : Machine) (reg left : ℕ) (cpu : Cpu)
    → decode_byte m reg left cpu ≡ decode_all m (byte_list reg left) cpu
unfolding decode_byte decode_all
decode_byte-eq m reg left cpu = elim (Bool-cases (nonzero (bits reg (left * 8) 8))) [
  | inl e ↦ rw e (sym (bind-ok (decode_descriptor m (bits reg (left * 8) 8) cpu)))
  | inr e ↦ rw e
]

-- The bytes that the loop reads with `left` rounds to go.
bytes_from : Bool → ℕ → ℕ → List ℕ
bytes_from al reg zero = []
bytes_from al reg (suc left) =
    byte_list reg left ++ (if (left == 1) && not al then [] else bytes_from al reg left)

decode_bytes-eq :
    (m : Machine) (z reg left : ℕ) (cpu : Cpu)
    → decode_bytes m z reg left cpu ≡ decode_all m (bytes_from (not (z == 0)) reg left) cpu
unfolding decode_bytes decode_all bytes_from
decode_bytes-eq m z reg zero cpu = refl
decode_bytes-eq m z reg (suc left) cpu =
    rw
      (
        decode_all-append m (byte_list reg left)
            (if (left == 1) && not (not (z == 0)) then [] else bytes_from (not (z == 0)) reg left)
            cpu,
        decode_byte-eq m reg left cpu,
      )
      (bind_cong (decode_all m (byte_list reg left) cpu) _ _
        λ c. ground (arith, decode_bytes-eq m z reg left c))

bytes_from_four :
    (al : Bool) (reg : ℕ)
    → bytes_from al reg 4
      ≡ byte_list reg 3
        ++ (byte_list reg 2 ++ (byte_list reg 1 ++ (if al then byte_list reg 0 else [])))
unfolding bytes_from
bytes_from_four true reg = rw (append-nil (byte_list reg 0))
bytes_from_four false reg = refl

decode_register-eq :
    (m : Machine) (z reg : ℕ) (cpu : Cpu)
    → decode_register m z reg cpu ≡ decode_all m (register_bytes (not (z == 0)) reg) cpu
unfolding decode_register decode_all
decode_register-eq m z reg cpu = elim (Bool-cases (nonzero (bits reg 31 1))) [
  | inl e ↦ rw e
  | inr e ↦ rw e (
      decode_bytes-eq m z reg 4 cpu
      ∙ ap (λ l. decode_all m l cpu) (bytes_from_four (not (z == 0)) reg))
]

then_register :
    (m : Machine) (z reg : ℕ) (ds : List ℕ) (cpu : Cpu) (before : Run Cpu)
    → before ≡ decode_all m ds cpu
    → (before >>= decode_register m z reg)
      ≡ decode_all m (ds ++ register_bytes (not (z == 0)) reg) cpu
then_register m z reg ds cpu before e =
    rw (decode_all-append m ds (register_bytes (not (z == 0)) reg) cpu, e)
      (bind_cong (decode_all m ds cpu) _ _ (decode_register-eq m z reg))

-- decode_intel_func2 treats exactly the bytes that leaf 2 says, in the order EAX, EBX, ECX, EDX
-- and from the top byte down, skipping a register with its top bit set, zero bytes and AL.
pub decode_intel_func2_reads :
    (m : Machine) (r : Regs) (cpu : Cpu)
    → decode_intel_func2 m r cpu ≡ decode_all m (descriptor_bytes r) cpu
unfolding decode_intel_func2
decode_intel_func2_reads m r cpu = then_register m 3 r.edx _ cpu _ (
    then_register m 2 r.ecx _ cpu _
      (then_register m 1 r.ebx _ cpu _ (decode_register-eq m 0 r.eax cpu)))

decode_descriptor-Returns : (m : Machine) (d : ℕ) (cpu : Cpu) → Returns (decode_descriptor m d cpu)
unfolding decode_descriptor add_hwmem add_tlb
decode_descriptor-Returns m d cpu = ground arith

decode_all-Returns : (m : Machine) (ds : List ℕ) (cpu : Cpu) → Returns (decode_all m ds cpu)
unfolding decode_all
decode_all-Returns m [] cpu = tt
decode_all-Returns m (d ∷ ds) cpu =
    Returns-then (decode_descriptor m d cpu) _ (decode_descriptor-Returns m d cpu)
      (decode_all-Returns m ds)

pub decode_intel_func2-Returns :
    (m : Machine) (r : Regs) (cpu : Cpu) → Returns (decode_intel_func2 m r cpu)
decode_intel_func2-Returns m r cpu =
    rw (decode_intel_func2_reads m r cpu) (decode_all-Returns m (descriptor_bytes r) cpu)
