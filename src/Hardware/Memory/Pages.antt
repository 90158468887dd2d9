-- ===== src/Hardware/Memory/Pages.antt =====
-- hardware/memory.c: which page sizes a node is given.
use Prim.Native.Nat.{compare, max, eq}
use libtorque.Base.{
  ℕ, ◌≤◌, ◌<◌, ◌≡◌, ◌≢◌, refl, ◌∙◌, Bool, true, false, List, [], ◌∷◌, some, Run, ok, err, fault,
  out_of_fuel, ◌>>=◌, arith, length, All, Bool-cases, inl, inr,
}
use libtorque.Base.Sorted.{
  insert, StrictlyAscending, insert-StrictlyAscending, compare-swap, Ordering-cases,
}
use libtorque.Hardware.Desc.{Tlb, Cpu}
use libtorque.Hardware.Memory.{
  add_pagesize, match_pagesize, see_pagesize, see_tlbs, see_cpus, determine_pagesizes, larger,
  larger_nodes, large_system_pagesize,
}

abbrev pub biggest : List ℕ → ℕ
biggest [] = 0
biggest (v ∷ vs) = max v (biggest vs)

-- The largest page of a processor's TLBs and of `m`, and of all processors' TLBs and of `m`.
abbrev pub top_tlbs : ℕ → List Tlb → ℕ
top_tlbs m [] = m
top_tlbs m (t ∷ ts) = top_tlbs (max m t.pagesize) ts

abbrev pub top_cpus : ℕ → List Cpu → ℕ
top_cpus m [] = m
top_cpus m (c ∷ cs) = top_cpus (top_tlbs m c.tlbdescs) cs

-- What success promises.
abbrev pub OnOk : {S : Type 0} → (S → Type 0) → Run S → Type 0
OnOk P (ok s) = P s
OnOk P (err s) = Unit
OnOk P fault = Unit
OnOk P out_of_fuel = Unit

OnOk-bind :
    {S : Type 0} (P Q : S → Type 0) (r : Run S) (f : S → Run S)
    → OnOk P r
    → ((s : S) → P s → OnOk Q (f s))
    → OnOk Q (r >>= f)
OnOk-bind P Q (ok s) f p k = k s p
OnOk-bind P Q (err s) f p k = tt
OnOk-bind P Q fault f p k = tt
OnOk-bind P Q out_of_fuel f p k = tt

-- The sizes of a node: ascending without repetition, none below `p`, the largest `m`.
record Pages (p m : ℕ) (vals : List ℕ) : Type 0 where
  ascending : StrictlyAscending compare vals
  floor : All (λ v. p ≤ v) vals
  top : biggest vals ≡ m
  above : p ≤ m

match_pagesize-true : (vals : List ℕ) (ps : ℕ) → match_pagesize vals ps ≡ true → ps ≤ biggest vals
unfolding match_pagesize
match_pagesize-true [] ps h = cc h
match_pagesize-true (v ∷ vs) ps h = ground (arith, match_pagesize-true vs ps)

match_pagesize-false :
    (vals : List ℕ) (ps : ℕ) → match_pagesize vals ps ≡ false → All (λ v. v < ps) vals
unfolding match_pagesize
match_pagesize-false [] ps h = tt
match_pagesize-false (v ∷ vs) ps h = (ground arith, match_pagesize-false vs ps (ground arith))

All-biggest : (vals : List ℕ) (ps : ℕ) → All (λ v. v < ps) vals → biggest vals ≤ ps
All-biggest [] ps all = omega arith
All-biggest (v ∷ vs) ps all = omega (arith, all.0, All-biggest vs ps all.1)

biggest-insert : (a : ℕ) (vals : List ℕ) → biggest (insert compare a vals) ≡ max a (biggest vals)
unfolding insert
biggest-insert a [] = refl
biggest-insert a (v ∷ vs) = elim (Ordering-cases (compare v a)) [
  | inl e ↦ rw (e, insert) (omega (arith, biggest-insert a vs))
  | inr (inl e) ↦ rw (e, insert) (omega (arith, biggest-insert a vs))
  | inr (inr e) ↦ rw (e, insert) refl
]

All-insert :
    (p a : ℕ) (vals : List ℕ)
    → p ≤ a
    → All (λ v. p ≤ v) vals
    → All (λ v. p ≤ v) (insert compare a vals)
unfolding insert
All-insert p a [] h all = (h, tt)
All-insert p a (v ∷ vs) h all = elim (Ordering-cases (compare v a)) [
  | inl e ↦ rw (e, insert) (all.0, All-insert p a vs h all.1)
  | inr (inl e) ↦ rw (e, insert) (all.0, All-insert p a vs h all.1)
  | inr (inr e) ↦ rw (e, insert) (h, all)
]

less-differs : (ps : ℕ) (vals : List ℕ) → All (λ v. v < ps) vals → All (λ v. compare v ps ≢ eq) vals
less-differs ps [] all = tt
less-differs ps (v ∷ vs) all = (differ all.0, less-differs ps vs all.1)
  where
    differ : v < ps → compare v ps ≢ eq
    differ h = ground arith

see_pagesize-Pages :
    (grow : ℕ → Bool) (ps p m : ℕ) (vals : List ℕ)
    → Pages p m vals
    → OnOk (Pages p (max m ps)) (see_pagesize grow ps vals)
unfolding see_pagesize add_pagesize
see_pagesize-Pages grow ps p m vals v = elim (Bool-cases (match_pagesize vals ps)) [
  | inl e ↦ rw (e) (record {
    ascending = v.ascending;
    floor = v.floor;
    top = omega (arith, v.top, match_pagesize-true vals ps e);
    above = omega (arith, v.above);
  })
  | inr e ↦
      let small = match_pagesize-false vals ps e in
      rw (e) (elim (Bool-cases (grow (length vals))) [
        | inr f ↦ rw (f) tt
        | inl f ↦ rw (f) (record {
          ascending =
              insert-StrictlyAscending compare compare-swap ps vals (less-differs ps vals small)
                v.ascending;
          floor =
              All-insert p ps vals (omega (arith, All-biggest vals ps small, v.top, v.above))
                v.floor;
          top = biggest-insert ps vals ∙ omega (arith, v.top);
          above = omega (arith, v.above);
        })
      ])
]

see_tlbs-Pages :
    (grow : ℕ → Bool) (tlbs : List Tlb) (p m : ℕ) (vals : List ℕ)
    → Pages p m vals
    → OnOk (Pages p (top_tlbs m tlbs)) (see_tlbs grow tlbs vals)
unfolding see_tlbs
see_tlbs-Pages grow [] p m vals v = v
see_tlbs-Pages grow (t ∷ ts) p m vals v =
    OnOk-bind (Pages p (max m t.pagesize)) (Pages p (top_tlbs (max m t.pagesize) ts)) _ _
      (see_pagesize-Pages grow t.pagesize p m vals v) (see_tlbs-Pages grow ts p (max m t.pagesize))

see_cpus-Pages :
    (grow : ℕ → Bool) (cpus : List Cpu) (p m : ℕ) (vals : List ℕ)
    → Pages p m vals
    → OnOk (Pages p (top_cpus m cpus)) (see_cpus grow cpus vals)
unfolding see_cpus
see_cpus-Pages grow [] p m vals v = v
see_cpus-Pages grow (c ∷ cs) p m vals v =
    OnOk-bind (Pages p (top_tlbs m c.tlbdescs)) (Pages p (top_cpus (top_tlbs m c.tlbdescs) cs)) _ _
      (see_tlbs-Pages grow c.tlbdescs p m vals v) (see_cpus-Pages grow cs p (top_tlbs m c.tlbdescs))

larger_lem : (vals : List ℕ) (ret : ℕ) → larger ret vals ≡ max ret (biggest vals)
unfolding larger
larger_lem [] ret = omega arith
larger_lem (v ∷ vs) ret = ground (arith, larger_lem vs v, larger_lem vs ret)

-- The node that detect_memories adds.
pub record IsNode (psize : ℕ) (cpus : List Cpu) (vals : List ℕ) : Type 0 where
  pub sizes_ascending : StrictlyAscending compare vals
  pub sizes_floor : All (λ v. psize ≤ v) vals
  pub largest :
      (size count : ℕ)
      → large_system_pagesize (record { size = size; psizevals = vals; count = count } ∷ [])
        ≡ top_cpus psize cpus

-- Where determine_pagesizes succeeds on a new node, the sizes ascend without repetition, none is
-- below the system's page size, and large_system_pagesize gives the largest of the system's page
-- size and of all TLBs' page sizes.
pub determine_pagesizes-IsNode :
    (grow : ℕ → Bool) (psize : ℕ) (cpus : List Cpu)
    → OnOk (IsNode psize cpus) (determine_pagesizes grow (some psize) cpus [])
unfolding determine_pagesizes add_pagesize insert large_system_pagesize larger_nodes
determine_pagesizes-IsNode grow psize cpus = elim (Bool-cases (grow 0)) [
  | inr e ↦ rw (e) tt
  | inl e ↦ rw (e) (
      described _ (
        see_cpus-Pages grow cpus psize psize (psize ∷ []) (record {
          ascending = (tt, tt);
          floor = (omega arith, tt);
          top = omega arith;
          above = omega arith;
        })))
]
  where
    described :
        (r : Run (List ℕ)) → OnOk (Pages psize (top_cpus psize cpus)) r → OnOk (IsNode psize cpus) r
    described (ok vals) v = record {
      sizes_ascending = v.ascending;
      sizes_floor = v.floor;
      largest = λ size count. larger_lem vals 0 ∙ omega (arith, v.top);
    }
    described (err vals) v = tt
    described fault v = tt
    described out_of_fuel v = tt
