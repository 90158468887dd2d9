-- ===== src/Base/Sorted.antt =====
-- The insertion that the library writes out three times (`add_hwmem`, `add_tlb` and
-- `add_pagesize`): walk an array up to the first entry that compares greater, shift the rest up by
-- `memmove`, store the new entry there; at the end of the array, append it.
use Prim.Native.Nat.{ℕ, suc, compare, Ordering, lt, eq, gt}
use mathlib.Core.Path.{◌≡◌, refl}
use mathlib.Core.Logic.{◌≢◌, ◌⊎◌, inl, inr}
use mathlib.Core.List.{List, [], ◌∷◌, Perm}
use mathlib.Core.List.Perm
use native.Mathlib.Omega.{arith}
use libtorque.Base.Lists.{All, length}

pub Ordering-cases : (o : Ordering) → (o ≡ lt) ⊎ ((o ≡ eq) ⊎ (o ≡ gt))
Ordering-cases lt = inl refl
Ordering-cases eq = inr (inl refl)
Ordering-cases gt = inr (inr refl)

-- The answer with the arguments exchanged.
abbrev pub swap : Ordering → Ordering
swap lt = gt
swap eq = eq
swap gt = lt

-- `CMP(a,b,field)`: return on a difference, go on where the fields are equal.
abbrev pub then_compare : Ordering → Ordering → Ordering
then_compare lt rest = lt
then_compare eq rest = rest
then_compare gt rest = gt

pub compare-swap : (a b : ℕ) → compare b a ≡ swap (compare a b)
compare-swap a b = ground arith

module _ {ℓ} {A : Type ℓ} (cmp : A → A → Ordering) where
  unfoldable pub insert : A → List A → List A
  insert a [] = a ∷ []
  insert a (x ∷ xs) = elim (cmp x a) [ gt ↦ a ∷ x ∷ xs | _ ↦ x ∷ insert a xs ]

  -- The next entry, if there is one, does not compare lower.
  abbrev pub FollowedBy : A → List A → Type 0
  FollowedBy x [] = Unit
  FollowedBy x (y ∷ ys) = cmp x y ≢ gt

  abbrev pub Ascending : List A → Type 0
  Ascending [] = Unit
  Ascending (x ∷ xs) = FollowedBy x xs × Ascending xs

  abbrev pub Below : A → List A → Type 0
  Below x [] = Unit
  Below x (y ∷ ys) = cmp x y ≡ lt

  abbrev pub StrictlyAscending : List A → Type 0
  StrictlyAscending [] = Unit
  StrictlyAscending (x ∷ xs) = Below x xs × StrictlyAscending xs

  pub insert-perm : (a : A) (xs : List A) → Perm (insert a xs) (a ∷ xs)
  unfolding insert
  insert-perm a [] = Perm.refl (a ∷ [])
  insert-perm a (x ∷ xs) =
      let later = Perm.trans (Perm.cons x (insert-perm a xs)) (Perm.swap a x xs) in
      elim (Ordering-cases (cmp x a)) [
        | inl e ↦ rw (e, insert) later
        | inr (inl e) ↦ rw (e, insert) later
        | inr (inr e) ↦ rw (e, insert) (Perm.refl (a ∷ x ∷ xs))
      ]

  pub length-insert : (a : A) (xs : List A) → length (insert a xs) ≡ suc (length xs)
  unfolding insert
  length-insert a [] = refl
  length-insert a (x ∷ xs) = ground (arith, length-insert a xs)

  module _ (flip : (x y : A) → cmp y x ≡ swap (cmp x y)) where
    insert-FollowedBy :
        (x a : A) (xs : List A) → FollowedBy x xs → cmp x a ≢ gt → FollowedBy x (insert a xs)
    unfolding insert
    insert-FollowedBy x a [] f h = h
    insert-FollowedBy x a (y ∷ ys) f h = elim (Ordering-cases (cmp y a)) [
      | inl e ↦ rw (e, insert) f
      | inr (inl e) ↦ rw (e, insert) f
      | inr (inr e) ↦ rw (e, insert) h
    ]

    pub insert-Ascending : (a : A) (xs : List A) → Ascending xs → Ascending (insert a xs)
    unfolding insert
    insert-Ascending a [] s = (tt, tt)
    insert-Ascending a (x ∷ xs) s = elim (Ordering-cases (cmp x a)) [
      | inl e ↦ rw (e, insert) (insert-FollowedBy x a xs s.0 (λ g. cc), insert-Ascending a xs s.1)
      | inr (inl e) ↦
          rw (e, insert) (insert-FollowedBy x a xs s.0 (λ g. cc), insert-Ascending a xs s.1)
      | inr (inr e) ↦ rw (e, insert) ((λ g. cc (flip x a)), s)
    ]

    insert-Below : (x a : A) (xs : List A) → Below x xs → cmp x a ≡ lt → Below x (insert a xs)
    unfolding insert
    insert-Below x a [] f h = h
    insert-Below x a (y ∷ ys) f h = elim (Ordering-cases (cmp y a)) [
      | inl e ↦ rw (e, insert) f
      | inr (inl e) ↦ rw (e, insert) f
      | inr (inr e) ↦ rw (e, insert) h
    ]

    -- An entry that equals none in the array keeps the order strict.
    pub insert-StrictlyAscending :
        (a : A) (xs : List A)
        → All (λ x. cmp x a ≢ eq) xs
        → StrictlyAscending xs
        → StrictlyAscending (insert a xs)
    unfolding insert
    insert-StrictlyAscending a [] n s = (tt, tt)
    insert-StrictlyAscending a (x ∷ xs) n s = elim (Ordering-cases (cmp x a)) [
      | inl e ↦ rw (e, insert) (insert-Below x a xs s.0 e, insert-StrictlyAscending a xs n.1 s.1)
      | inr (inl e) ↦ absurd (n.0 e)
      | inr (inr e) ↦ rw (e, insert) (cc (flip x a), s)
    ]
