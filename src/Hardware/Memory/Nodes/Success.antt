-- ===== src/Hardware/Memory/Nodes/Success.antt =====
-- hardware/memory.c: detect_memories succeeds where nothing is refused.
use libtorque.Base.{
  ℕ, ◌≡◌, ◌≢◌, refl, ap, ◌∙◌, Bool, true, List, [], ◌∷◌, some, Run, ok, ◌>>=◌, length, ◌==◌, ==_iff,
  Bool-cases, inl, inr, if◌then◌else◌,
}
use Prim.Native.Nat.{compare}
use libtorque.Base.Sorted.{insert}
use libtorque.Hardware.Desc.{Tlb, Cpu, Node}
use libtorque.Hardware.Memory.{
  add_pagesize, match_pagesize, see_pagesize, see_tlbs, see_cpus, determine_pagesizes,
}
use libtorque.Hardware.Memory.Nodes.{
  MemorySystem, determine_sysmem, with_psizes, with_nodes, add_node, detect_memories,
}

module _ (grow : ℕ → Bool) (grows : (n : ℕ) → grow n ≡ true) where
  -- A result, with the page sizes that it leaves.
  abbrev Gives : Run (List ℕ) → Type 0
  Gives r = (vals : List ℕ) × (r ≡ ok vals)

  Gives-bind :
      (r : Run (List ℕ)) (f : List ℕ → Run (List ℕ))
      → Gives r
      → ((vals : List ℕ) → Gives (f vals))
      → Gives (r >>= f)
  Gives-bind r f (vals, e) later =
      let (vals', e') = later vals in (vals', ap (λ (q : Run (List ℕ)). q >>= f) e ∙ e')

  add_pagesize-Gives : (ps : ℕ) (vals : List ℕ) → Gives (add_pagesize grow ps vals)
  unfolding add_pagesize
  add_pagesize-Gives ps vals = (
    insert compare ps vals,
    ap (λ (b : Bool). if b then ok (insert compare ps vals) else Run.err vals)
        (grows (length vals)),
  )

  see_pagesize-Gives : (ps : ℕ) (vals : List ℕ) → Gives (see_pagesize grow ps vals)
  unfolding see_pagesize
  see_pagesize-Gives ps vals = elim (Bool-cases (match_pagesize vals ps)) [
    | inl e ↦ (vals, rw (e) refl)
    | inr e ↦ let (vals', e') = add_pagesize-Gives ps vals in (vals', rw (e) e')
  ]

  see_tlbs-Gives : (tlbs : List Tlb) (vals : List ℕ) → Gives (see_tlbs grow tlbs vals)
  unfolding see_tlbs
  see_tlbs-Gives [] vals = (vals, refl)
  see_tlbs-Gives (t ∷ ts) vals =
      Gives-bind _ (see_tlbs grow ts) (see_pagesize-Gives t.pagesize vals) (see_tlbs-Gives ts)

  see_cpus-Gives : (cpus : List Cpu) (vals : List ℕ) → Gives (see_cpus grow cpus vals)
  unfolding see_cpus
  see_cpus-Gives [] vals = (vals, refl)
  see_cpus-Gives (c ∷ cs) vals =
      Gives-bind _ (see_cpus grow cs) (see_tlbs-Gives c.tlbdescs vals) (see_cpus-Gives cs)

  determine_pagesizes-Gives :
      (psize : ℕ) (cpus : List Cpu) (vals : List ℕ)
      → Gives (determine_pagesizes grow (some psize) cpus vals)
  unfolding determine_pagesizes
  determine_pagesizes-Gives psize cpus vals =
      Gives-bind _ (see_cpus grow cpus) (add_pagesize-Gives psize vals) (see_cpus-Gives cpus)

-- Nothing is refused, and there is memory.
pub record HasMemory (s : MemorySystem) : Type 0 where
  pub psize : ℕ
  pub grows : (n : ℕ) → s.grow_psizes n ≡ true
  pub pagesize : s.pagesize ≡ some psize
  pub sysmem : determine_sysmem s ≢ 0
  pub grow_nodes : s.grow_nodes ≡ true

-- detect_memories succeeds where malloc does and the system knows its page size and its memory.
pub detect_memories-succeeds :
    (s : MemorySystem) (cpus : List Cpu)
    → HasMemory s
    → (nodes : List Node) × (detect_memories s cpus [] ≡ ok nodes)
unfolding detect_memories
detect_memories-succeeds s cpus has =
    let (vals, e) = determine_pagesizes-Gives s.grow_psizes has.grows has.psize cpus [] in
    let size = determine_sysmem s in
    let node : Node = record { size = size; psizevals = vals; count = 1 } in
    (
      node ∷ [],
      ap (λ p. with_psizes s [] (determine_pagesizes s.grow_psizes p cpus [])) has.pagesize
          ∙ ap (with_psizes s []) e
          ∙ by_size size node has.sysmem,
    )
  where
    by_size :
        (size : ℕ) (node : Node)
        → size ≢ 0
        → (if size == 0 then Run.err [] else with_nodes (add_node s.grow_nodes [] node))
          ≡ ok (node ∷ [])
    by_size size node nonzero_size = elim (Bool-cases (size == 0)) [
      | inl e ↦ absurd (nonzero_size ((==_iff size 0).0 e))
      | inr e ↦ rw (e) (ap (λ b. with_nodes (add_node b [] node)) has.grow_nodes)
    ]
