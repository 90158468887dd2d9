-- ===== src/Tls/Library/Locks.antt =====
-- protos/ssl.c: the locks are all destroyed that were initialized, and no others.
use libtorque.Base.{
  ℕ, zero, suc, ◌≡◌, ◌⊎◌, inl, inr, refl, sym, ◌∙◌, ap, subst, Bool, true, false, not, List, [],
  ◌∷◌, Option, none, some, Run, ok, err, fault, ◌>>=◌, get_elem?, set, if_cases,
}
use libtorque.Tls.Library.{
  Library, no_locks, mutex_destroy, unwind, failed, init_locks, allocated, Answers, with_locks,
  with_num_locks, torque_init_ssl, destroy_locks, emptied, torque_stop_ssl,
}

-- `n` times one value, before a list.
abbrev repeated : ℕ → Bool → List Bool → List Bool
repeated zero b rest = rest
repeated (suc n) b rest = b ∷ repeated n b rest

get_elem?-repeated :
    (n : ℕ) (b c : Bool) (rest : List Bool) → get_elem? (repeated n b (c ∷ rest)) n ≡ some c
get_elem?-repeated zero b c rest = refl
get_elem?-repeated (suc n) b c rest = get_elem?-repeated n b c rest

set-repeated :
    (n : ℕ) (b c d : Bool) (rest : List Bool)
    → set (repeated n b (c ∷ rest)) n d ≡ repeated n b (d ∷ rest)
set-repeated zero b c d rest = refl
set-repeated (suc n) b c d rest = ap (λ (t : List Bool). b ∷ t) (set-repeated n b c d rest)

repeated_next :
    (n : ℕ) (b : Bool) (rest : List Bool) → repeated n b (b ∷ rest) ≡ repeated (suc n) b rest
repeated_next zero b rest = refl
repeated_next (suc n) b rest = ap (λ (t : List Bool). b ∷ t) (repeated_next n b rest)

mutex_destroy-repeated :
    (n : ℕ) (b : Bool) (rest : List Bool)
    → mutex_destroy (repeated n b (true ∷ rest)) n ≡ ok (repeated n b (false ∷ rest))
mutex_destroy-repeated n b rest =
    rw (get_elem?-repeated n b true rest, mutex_destroy) (ap ok (set-repeated n b true false rest))

-- Unwinding destroys each of the first mutexes.
unwind_lem :
    (z : ℕ) (rest : List Bool) → unwind z (repeated z true rest) ≡ ok (repeated z false rest)
unfolding unwind
unwind_lem zero rest = refl
unwind_lem (suc z) rest =
    ap (λ (l : List Bool). mutex_destroy l z >>= (λ l'. unwind z l'))
      (sym (repeated_next z true rest))
    ∙ ap (λ (r : Run (List Bool)). r >>= (λ l'. unwind z l')) (mutex_destroy-repeated z true rest)
    ∙ unwind_lem z (false ∷ rest)
    ∙ ap ok (repeated_next z false rest)

allocated-repeated : (n : ℕ) → allocated n ≡ repeated n false []
unfolding allocated
allocated-repeated zero = refl
allocated-repeated (suc n) = ap (λ (t : List Bool). false ∷ t) (allocated-repeated n)

-- How the loop ends after `z` mutexes, with `left` to come: all initialized, or all destroyed.
abbrev AllOrNone : ℕ → Run (List Bool) → Type 0
AllOrNone n (ok locks) = locks ≡ repeated n true []
AllOrNone n (err locks) = locks ≡ repeated n false []
AllOrNone n Run.fault = ⊥
AllOrNone n Run.out_of_fuel = ⊥

init_locks-AllOrNone :
    (works : ℕ → Bool) (left z n : ℕ)
    → ((b : Bool) → repeated z b (repeated left b []) ≡ repeated n b [])
    → AllOrNone n (init_locks works left z (repeated z true (allocated left)))
unfolding init_locks allocated
init_locks-AllOrNone works zero z n whole = whole true
init_locks-AllOrNone works (suc left) z n whole =
    if_cases (AllOrNone n) (works z) _ _
      (λ _.
        subst (λ l. AllOrNone n (init_locks works left (suc z) l))
          (sym (
            set-repeated z true false true (allocated left)
            ∙ repeated_next z true (allocated left)))
          (init_locks-AllOrNone works left (suc z) n
            (λ b. sym (repeated_next z b (repeated left b [])) ∙ whole b)))
      (λ _.
        subst (λ r. AllOrNone n (failed r)) (sym (unwind_lem z (allocated (suc left))))
          (ap (λ (l : List Bool). repeated z false (false ∷ l)) (allocated-repeated left)
            ∙ whole false))

destroy_locks_lem :
    (left z : ℕ)
    → destroy_locks left z (repeated z false (repeated left true []))
      ≡ ok (repeated z false (repeated left false []))
unfolding destroy_locks
destroy_locks_lem zero z = refl
destroy_locks_lem (suc left) z =
    ap (λ (r : Run (List Bool)). r >>= (λ l'. destroy_locks left (suc z) l'))
      (mutex_destroy-repeated z false (repeated left true []))
    ∙ ap (destroy_locks left (suc z)) (repeated_next z false (repeated left true []))
    ∙ destroy_locks_lem left (suc z)
    ∙ ap ok (sym (repeated_next z false (repeated left false [])))

-- The library without locks, once an array of `n` was freed after each of its mutexes was destroyed.
abbrev pub unlocked : ℕ → Library
unlocked zero = no_locks
unlocked (suc n) = record no_locks { freed = repeated (suc n) false [] ∷ [] }

-- What torque_stop_ssl makes of the end of torque_init_ssl.
abbrev pub Stops : Answers → Run Library → Type 0
Stops a (ok l) = (a.num_locks ≡ some l.numlocks) × (torque_stop_ssl l ≡ ok (unlocked l.numlocks))
Stops a (err l) =
    ((l ≡ no_locks) ⊎ ((n : ℕ) × (a.num_locks ≡ some n) × (l ≡ unlocked n)))
    ⊎ ((a.locks_malloc ≡ false) × (torque_stop_ssl l ≡ fault))
Stops a Run.fault = ⊥
Stops a Run.out_of_fuel = ⊥

with_locks-Stops :
    (a : Answers) (n : ℕ) (r : Run (List Bool))
    → a.num_locks ≡ some (suc n)
    → AllOrNone (suc n) r
    → Stops a (with_locks no_locks (suc n) r)
unfolding torque_stop_ssl
with_locks-Stops a n (ok locks) given all = (
  given,
  ap (λ (l : List Bool). emptied [] (destroy_locks (suc n) 0 l)) all
      ∙ ap (emptied []) (destroy_locks_lem (suc n) 0),
)
with_locks-Stops a n (err locks) given all = inl (
    inr (
      suc n,
      given,
      ap (λ (l : List Bool). record { numlocks = 0; openssl_locks = none; freed = l ∷ [] }) all,
    ))
with_locks-Stops a n Run.fault given all = absurd all
with_locks-Stops a n Run.out_of_fuel given all = absurd all

-- After a success of torque_init_ssl torque_stop_ssl destroys every one of as many locks as OpenSSL
-- asked for, and frees their array. A failure leaves no locks: none were made, or each mutex of the
-- array was destroyed before the array was freed; unless malloc failed: then torque_stop_ssl reads an
-- array that is not there.
pub torque_init_ssl-Stops : (a : Answers) → Stops a (torque_init_ssl a no_locks)
unfolding torque_init_ssl
torque_init_ssl-Stops a =
    if_cases (Stops a) (not a.library_init_works) _ _ (λ _. inl (inl refl))
      (λ _.
        if_cases (Stops a) (not a.rand_status_works) _ _ (λ _. inl (inl refl))
          (λ _. by_num_locks a.num_locks refl))
  where
    refused : (b : Bool) → not b ≡ true → b ≡ false
    refused true e = cc e
    refused false e = refl

    no_array :
        (n : ℕ)
        → torque_stop_ssl (record { numlocks = suc n; openssl_locks = none; freed = [] }) ≡ fault
    no_array n = unfold torque_stop_ssl in refl

    by_num_locks : (n : Option ℕ) → a.num_locks ≡ n → Stops a (with_num_locks a no_locks n)
    by_num_locks none given = inl (inl refl)
    by_num_locks (some zero) given = (given, unfold torque_stop_ssl in refl)
    by_num_locks (some (suc n)) given =
        if_cases (Stops a) (not a.locks_malloc) _ _
          (λ e. inr (refused a.locks_malloc e, no_array n))
          (λ _.
            with_locks-Stops a n _ given
              (init_locks-AllOrNone a.mutex_init (suc n) 0 (suc n) (λ b. refl)))
