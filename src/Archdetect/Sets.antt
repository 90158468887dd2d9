-- ===== src/Archdetect/Sets.antt =====
-- archdetect/archdetect.c: how the topology is printed.
use Prim.Native.String.{String}
use libtorque.Base.{
  ℕ, zero, suc, ◌+◌, ◌≤◌, ◌<◌, ◌≡◌, ◌≢◌, ◌⊎◌, inl, inr, refl, ◌∙◌, ap, Bool, true, false, ◌||◌,
  List, [], ◌∷◌, Option, none, some, get_elem?, ◌==◌, if◌then◌else◌, Run, ok, err, fault,
  out_of_fuel, ◌>>=◌, call, arith, Bool-cases,
}
use libtorque.Hardware.Topology.{Group, CpuSet, Topt, null, node}
use libtorque.Hardware.Topology.Rules.{IsTopology, IsPackage, IsCore, IsUsed, AllGroups, IsNull}
use libtorque.Archdetect.{Text, row, tab, heading, cpu, processors, threads_total, fprintf}

-- `depth_terms` up to its NULL, which is not to be printed.
abbrev pub depth_terms : List String
depth_terms = "Package" ∷ "Core" ∷ "Thread" ∷ []

abbrev pub is_null : Topt → Bool
is_null null = true
is_null (node g d s sub next) = false

-- The first loop, which prints one tab more than the depth.
unfoldable pub tabs : (Text → Bool) → ℕ → List Text → Run (List Text)
tabs writes zero out = fprintf writes (row tab) out
tabs writes (suc depth) out = fprintf writes (row tab) out >>= tabs writes depth

-- `total` and `lastset`, with what was printed.
pub record Counted : Type 0 where
  pub total : ℕ
  pub lastset : ℕ
  pub out : List Text

-- The second loop, for the `left` CPUs from `z` on.
unfoldable pub print_cpus : (Text → Bool) → CpuSet → Bool → ℕ → ℕ → Counted → Run Counted
print_cpus writes s leaf zero z c = ok c
print_cpus writes s leaf (suc left) z c =
    if s z
    then call (if leaf then fprintf writes (row (cpu z)) c.out else ok c.out) c (λ out.
      print_cpus writes s leaf left (suc z)
        (record { total = suc c.total; lastset = z; out = out }))
    else print_cpus writes s leaf left (suc z) c

unfoldable pub print_total : (Text → Bool) → ℕ → ℕ → Bool → Counted → Run (List Text)
print_total writes cpu_setsize cpudesc leaf c =
    if (c.total == 0) || (c.lastset == cpu_setsize)
    then err c.out
    else fprintf writes
        (row (if leaf then processors c.total (suc cpudesc) else threads_total c.total)) c.out

-- The counts go on to the next printf, and an error leaves what was printed.
abbrev pub then_total : Run Counted → (Counted → Run (List Text)) → Run (List Text)
then_total (ok c) f = f c
then_total (err c) f = err c.out
then_total fault f = fault
then_total out_of_fuel f = out_of_fuel

-- A group up to the recursive calls.
unfoldable pub print_group :
    (Text → Bool) → ℕ → ℕ → ℕ → CpuSet → Bool → Option String → ℕ → List Text → Run (List Text)
print_group writes cpu_setsize groupid cpudesc s leaf none depth out = fault
print_group writes cpu_setsize groupid cpudesc s leaf (some term) depth out =
    tabs writes depth out >>= λ out. fprintf writes (row (heading term groupid)) out >>= λ out.
    then_total
      (print_cpus writes s leaf cpu_setsize 0
        (record { total = 0; lastset = cpu_setsize; out = out }))
      (print_total writes cpu_setsize cpudesc leaf)

unfoldable pub print_cpuset : (Text → Bool) → ℕ → Topt → ℕ → List Text → Run (List Text)
print_cpuset writes cpu_setsize null depth out = ok out
print_cpuset writes cpu_setsize (node groupid cpudesc s sub next) depth out =
    print_group writes cpu_setsize groupid cpudesc s (is_null sub) (get_elem? depth_terms depth)
      depth out
    >>= print_cpuset writes cpu_setsize sub (suc depth)
    >>= print_cpuset writes cpu_setsize next depth

unfoldable pub print_topology : (Text → Bool) → ℕ → Topt → List Text → Run (List Text)
print_topology writes cpu_setsize t out = print_cpuset writes cpu_setsize t 0 out

module _ (writes : Text → Bool) (works : (t : Text) → writes t ≡ true) (n : ℕ) where
  fprintf-ok : (t : Text) (out : List Text) → fprintf writes t out ≡ ok (t ∷ out)
  unfolding fprintf
  fprintf-ok t out = let w = works t in rw (w) refl

  tabs-ok : (depth : ℕ) (out : List Text) → (text : List Text) × (tabs writes depth out ≡ ok text)
  unfolding tabs
  tabs-ok zero out = (_, fprintf-ok (row tab) out)
  tabs-ok (suc depth) out =
      let (text, e) = tabs-ok depth (row tab ∷ out) in
      (text, ap (λ r. r >>= tabs writes depth) (fprintf-ok (row tab) out) ∙ e)

  listed-ok :
      (leaf : Bool) (z : ℕ) (out : List Text)
      → (text : List Text) × ((if leaf then fprintf writes (row (cpu z)) out else ok out) ≡ ok text)
  listed-ok true z out = (_, fprintf-ok (row (cpu z)) out)
  listed-ok false z out = (out, refl)

  -- The loop comes to the first CPU of the set, or has then_total one.
  print_cpus-ok :
      (s : CpuSet) (leaf : Bool) (left z first : ℕ) (c : Counted)
      → z + left ≡ n
      → s first ≡ true
      → first < n
      → (z ≤ first) ⊎ ((0 < c.total) × (c.lastset < n))
      → (d : Counted) × (print_cpus writes s leaf left z c ≡ ok d) × (0 < d.total) × (d.lastset < n)
  unfolding print_cpus
  print_cpus-ok s leaf zero z first c sum member inside (inl later) =
      absurd (omega (arith, sum, later, inside))
  print_cpus-ok s leaf zero z first c sum member inside (inr (some_cpu, last)) =
      (c, refl, some_cpu, last)
  print_cpus-ok s leaf (suc left) z first c sum member inside reached = elim (Bool-cases (s z)) [
    | inl e ↦
        let (text, printed) = listed-ok leaf z c.out in
        let (d, ends, some_cpu, last) =
          print_cpus-ok s leaf left (suc z) first
            (record { total = suc c.total; lastset = z; out = text }) (omega (arith, sum)) member
            inside (inr (omega arith, omega (arith, sum))) in
        (d, rw (e, printed) ends, some_cpu, last)
    | inr e ↦
        let (d, ends, some_cpu, last) =
          print_cpus-ok s leaf left (suc z) first c (omega (arith, sum)) member inside
            (moved z first c reached (λ same. let m = ap s same in cc (m, e, member))) in
        (d, rw (e) ends, some_cpu, last)
  ]
    where
      moved :
          (z first : ℕ) (c : Counted)
          → (z ≤ first) ⊎ ((0 < c.total) × (c.lastset < n))
          → z ≢ first
          → (suc z ≤ first) ⊎ ((0 < c.total) × (c.lastset < n))
      moved z first c (inl later) differ = inl (omega (arith, later, differ))
      moved z first c (inr found) differ = inr found

  print_group-ok :
      (g d : ℕ) (s : CpuSet) (leaf : Bool) (term : String) (depth : ℕ) (out : List Text)
      → IsUsed n s
      → (text : List Text) × (print_group writes n g d s leaf (some term) depth out ≡ ok text)
  unfolding print_group print_total
  print_group-ok g d s leaf term depth out used =
      let (out', tabbed) = tabs-ok depth out in
      let (c, ends, some_cpu, last) =
        print_cpus-ok s leaf n 0 used.first
          (record { total = 0; lastset = n; out = row (heading term g) ∷ out' }) (omega arith)
          used.first_in (used.bounded used.first used.first_in) (inl (omega arith)) in
      let counts : (c.total == 0) || (c.lastset == n) ≡ false = ground (arith, some_cpu, last) in
      let end = row (if leaf then processors c.total (suc d) else threads_total c.total) in
      (
        end ∷ c.out,
        rw (tabbed, fprintf-ok (row (heading term g)) out', ends, counts) (fprintf-ok end c.out),
      )

  groups-ok :
      (P : Group → Type 0) (depth : ℕ) (term : String)
      → get_elem? depth_terms depth ≡ some term
      → ((g : Group) → P g → IsUsed n g.schedulable)
      → ((g : Group)
          → P g
          → (out : List Text)
          → (text : List Text) × (print_cpuset writes n g.sub (suc depth) out ≡ ok text))
      → (t : Topt) → AllGroups P t
      → (out : List Text) → (text : List Text) × (print_cpuset writes n t depth out ≡ ok text)
  unfolding print_cpuset
  groups-ok P depth term named used subs null all out = (out, refl)
  groups-ok P depth term named used subs (node g d s sub next) all out =
      let (out1, e1) = print_group-ok g d s (is_null sub) term depth out (used _ all.0) in
      let (out2, e2) = subs _ all.0 out1 in
      let (out3, e3) = groups-ok P depth term named used subs next all.1 out2 in
      (out3, rw (named, e1, e2) e3)

  -- Where all can be written, the topology is printed to the end if it keeps its rules: no group is without
  -- a CPU, and none is deeper than the terms for it.
  pub print_topology-succeeds :
      (t : Topt) (out : List Text)
      → IsTopology n t
      → (text : List Text) × (print_topology writes n t out ≡ ok text)
  unfolding print_topology print_cpuset
  print_topology-succeeds t out rules =
      groups-ok (IsPackage n) 0 "Package" refl (λ g p. p.used)
        (λ g p.
          groups-ok (IsCore n) 1 "Core" refl (λ h c. c.used) (λ h c. no_subgroups h.sub c.leaf)
            g.sub p.cores)
        t rules.packages out
    where
      no_subgroups :
          (t : Topt)
          → IsNull t
          → (out : List Text) → (text : List Text) × (print_cpuset writes n t 2 out ≡ ok text)
      no_subgroups null leaf out = (out, refl)
      no_subgroups (node g d s sub next) leaf out = absurd leaf
