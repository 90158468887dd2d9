-- ===== src/Events/Registry.antt =====
-- events/sources.h: the table of sources refines a function from numbers to sources.
use libtorque.Base.{
  ℕ, zero, suc, ◌<◌, ◌≡◌, refl, ap, sym, ◌∙◌, ◌==◌, ==_iff, Option-cases, get_elem?-set_same,
  get_elem?-set_other, set-set, if_cases, inl, inr, List, [], ◌∷◌, Option, some, Run, ok, ◌>>=◌,
  get_elem?, set, length, length-set, arith, All, if◌then◌else◌,
}
use libtorque.Events.Sources.{
  EvSource, unset, create_evsources, update, set_evsource_rx, set_evsource_tx, setup_evsource,
}

pub update-some :
    (evs : List EvSource) (n : ℕ) (s : EvSource) (f : EvSource → EvSource)
    → get_elem? evs n ≡ some s
    → update evs n f ≡ ok (set evs n (f s))
update-some evs n s f e = rw (e, update) refl

-- setup_evsource writes the whole entry.
pub setup_evsource_lem :
    (evs : List EvSource) (n : ℕ) (rx tx : Option ℕ) (v : ℕ)
    → setup_evsource evs n rx tx v
      ≡ update evs n (λ _. record { rxfxn = rx; txfxn = tx; cbstate = v })
unfolding setup_evsource set_evsource_rx set_evsource_tx
setup_evsource_lem evs n rx tx v = elim (Option-cases (get_elem? evs n)) [
  | inl e ↦ rw (e, update) refl
  | inr (s, e) ↦
      let s1 : EvSource = record s { rxfxn = rx } in
      let s2 : EvSource = record s1 { txfxn = tx } in
      let e1 = get_elem?-set_same evs n s s1 e in
      let evs1 = set evs n s1 in
      let s3 : EvSource = record s2 { cbstate = v } in
      let finish : List EvSource → Run (List EvSource) =
        λ t. update t n (λ e. record e { cbstate = v }) in
      ap (λ (r : Run (List EvSource)). r >>= (λ t. set_evsource_tx t n tx) >>= finish)
        (update-some evs n s _ e)
      ∙ ap (λ (r : Run (List EvSource)). r >>= finish) (update-some evs1 n s1 _ e1)
      ∙ update-some (set evs1 n s2) n s2 _ (get_elem?-set_same evs1 n s1 s2 e1)
      ∙ ap ok (set-set evs1 n s2 s3 ∙ set-set evs n s1 s3)
      ∙ sym (update-some evs n s _ e)
]

-- A registration, as the library makes them.
pub data Registration : Type 0 where
  setup : (n : ℕ) (rx tx : Option ℕ) (v : ℕ) → Registration
  set_rx : (n : ℕ) (rx : Option ℕ) → Registration
  set_tx : (n : ℕ) (tx : Option ℕ) → Registration

abbrev pub number : Registration → ℕ
number (setup n rx tx v) = n
number (set_rx n rx) = n
number (set_tx n tx) = n

unfoldable pub register : List EvSource → Registration → Run (List EvSource)
register evs (setup n rx tx v) = setup_evsource evs n rx tx v
register evs (set_rx n rx) = set_evsource_rx evs n rx
register evs (set_tx n tx) = set_evsource_tx evs n tx

unfoldable pub register_all : List EvSource → List Registration → Run (List EvSource)
register_all evs [] = ok evs
register_all evs (r ∷ rs) = register evs r >>= (λ evs'. register_all evs' rs)

-- The specification: every number has a source, and a registration replaces that of one number.
abbrev pub Sources : Type 0
Sources = ℕ → EvSource

abbrev pub change_of : Registration → EvSource → EvSource
change_of (setup n rx tx v) e = record { rxfxn = rx; txfxn = tx; cbstate = v }
change_of (set_rx n rx) e = record e { rxfxn = rx }
change_of (set_tx n tx) e = record e { txfxn = tx }

abbrev pub recorded : Sources → Registration → Sources
recorded sources r z = if z == number r then change_of r (sources z) else sources z

abbrev pub all_recorded : Sources → List Registration → Sources
all_recorded sources [] = sources
all_recorded sources (r ∷ rs) = all_recorded (recorded sources r) rs

-- A table of `n` entries that reads as a function.
pub record Reads (n : ℕ) (evs : List EvSource) (sources : Sources) : Type 0 where
  pub size : length evs ≡ n
  pub entries : (z : ℕ) → z < n → get_elem? evs z ≡ some (sources z)

register-update :
    (evs : List EvSource) (r : Registration) → register evs r ≡ update evs (number r) (change_of r)
unfolding register set_evsource_rx set_evsource_tx
register-update evs (setup n rx tx v) = setup_evsource_lem evs n rx tx v
register-update evs (set_rx n rx) = refl
register-update evs (set_tx n tx) = refl

-- One registration.
pub register-Reads :
    (n : ℕ) (evs : List EvSource) (sources : Sources) (r : Registration)
    → Reads n evs sources
    → number r < n
    → (evs' : List EvSource) × (register evs r ≡ ok evs') × Reads n evs' (recorded sources r)
register-Reads n evs sources r reads inside =
    let here = reads.entries (number r) inside in
    let e = change_of r (sources (number r)) in
    (
      set evs (number r) e,
      register-update evs r ∙ update-some evs (number r) _ (change_of r) here,
      record { size = length-set evs (number r) e ∙ reads.size; entries = entries },
    )
  where
    entries :
        (z : ℕ)
        → z < n
        → get_elem? (set evs (number r) (change_of r (sources (number r)))) z
          ≡ some (recorded sources r z)
    entries z below =
        if_cases (λ e. get_elem? (set evs (number r) (change_of r (sources (number r)))) z ≡ some e)
          (z == number r) _ _
          (λ e.
            let same = (==_iff z (number r)).0 e in
            rw (same) (get_elem?-set_same evs (number r) _ _ (reads.entries (number r) inside)))
          (λ e.
            get_elem?-set_other evs (number r) z _
              (λ same. let yes' = (==_iff z (number r)).1 same in cc)
            ∙ reads.entries z below)

-- After any sequence of registrations inside a table it has an entry for each number, and the
-- entry is the one that the specification gives: the registrations do not fail.
pub register_all-Reads :
    (n : ℕ) (rs : List Registration) (evs : List EvSource) (sources : Sources)
    → Reads n evs sources
    → All (λ r. number r < n) rs
    → (evs' : List EvSource) × (register_all evs rs ≡ ok evs')
      × Reads n evs' (all_recorded sources rs)
unfolding register_all
register_all-Reads n [] evs sources reads inside = (evs, refl, reads)
register_all-Reads n (r ∷ rs) evs sources reads inside =
    let one = register-Reads n evs sources r reads inside.0 in
    let step = one.1 in
    let rest = register_all-Reads n rs one.0 (recorded sources r) one.2 inside.1 in
    (rest.0, rw (step) rest.1, rest.2)

-- The table that create_evsources allocates has no callback.
pub create_evsources-Reads : (n : ℕ) → Reads n (create_evsources n) (λ _. unset)
unfolding create_evsources
create_evsources-Reads n = record { size = size n; entries = entries n }
  where
    size : (n : ℕ) → length (create_evsources n) ≡ n
    size zero = refl
    size (suc n) = ap suc (size n)

    entries : (n z : ℕ) → z < n → get_elem? (create_evsources n) z ≡ some unset
    entries zero z below = absurd (omega (arith, below))
    entries (suc n) zero below = refl
    entries (suc n) (suc z) below = entries n z (omega (arith, below))
