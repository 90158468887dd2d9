-- ===== src/Tls/Library.antt =====
-- protos/ssl.c: the locks that OpenSSL works with, from torque_init_ssl to torque_stop_ssl.
pub mod Locks
use libtorque.Base.{
  ℕ, zero, suc, Bool, true, false, ◌&&◌, not, List, [], ◌∷◌, Option, none, some, Run, ok, err,
  fault, ◌>>=◌, get_elem?, set, if◌then◌else◌,
}

-- `numlocks`, and `openssl_locks` with whether each of its mutexes is initialized. `freed` has the
-- arrays that were given to free, with their mutexes as they were then.
pub record Library : Type 0 where
  pub numlocks : ℕ
  pub openssl_locks : Option (List Bool)
  pub freed : List (List Bool)

abbrev pub no_locks : Library
no_locks = record { numlocks = 0; openssl_locks = none; freed = [] }

-- pthread_mutex_destroy. On what is no mutex it is undefined behaviour.
abbrev pub mutex_destroy : List Bool → ℕ → Run (List Bool)
mutex_destroy locks z = by_entry (get_elem? locks z)
  where
    by_entry : Option Bool → Run (List Bool)
    by_entry none = fault
    by_entry (some false) = fault
    by_entry (some true) = ok (set locks z false)

-- `while(z--)`
unfoldable pub unwind : ℕ → List Bool → Run (List Bool)
unwind zero locks = ok locks
unwind (suc z) locks = mutex_destroy locks z >>= (λ locks'. unwind z locks')

-- A call that ends with an error, whatever it leaves.
abbrev pub failed : Run (List Bool) → Run (List Bool)
failed (ok locks) = err locks
failed (err locks) = err locks
failed Run.fault = fault
failed Run.out_of_fuel = Run.out_of_fuel

-- The loop that initializes the mutexes, from `z` on with `left` of them; `works` is what
-- pthread_mutex_init answers.
unfoldable pub init_locks : (ℕ → Bool) → (left z : ℕ) → List Bool → Run (List Bool)
unfolding unwind
init_locks works zero z locks = ok locks
init_locks works (suc left) z locks =
    let rest = init_locks works left (suc z) (set locks z true) in
    if works z then rest else failed (unwind z locks)

-- An array of malloc, where no mutex is initialized.
unfoldable pub allocated : ℕ → List Bool
allocated zero = []
allocated (suc n) = false ∷ allocated n

-- What the calls of torque_init_ssl answer. `num_locks` is that of CRYPTO_num_locks, where it is not
-- negative.
pub record Answers : Type 0 where
  pub library_init_works : Bool
  pub rand_status_works : Bool
  pub num_locks : Option ℕ
  pub locks_malloc : Bool
  pub mutex_init : ℕ → Bool

abbrev pub with_locks : Library → ℕ → Run (List Bool) → Run Library
with_locks l n (ok locks) = ok (record l { numlocks = n; openssl_locks = some locks })
with_locks l n (err locks) =
    err (record { numlocks = 0; openssl_locks = none; freed = locks ∷ l.freed })
with_locks l n Run.fault = fault
with_locks l n Run.out_of_fuel = Run.out_of_fuel

abbrev pub with_num_locks : Answers → Library → Option ℕ → Run Library
with_num_locks a l none = err l
with_num_locks a l (some zero) = ok l
with_num_locks a l (some (suc n)) =
    if not a.locks_malloc
    then err (record l { numlocks = suc n; openssl_locks = none })
    else with_locks l (suc n) (init_locks a.mutex_init (suc n) 0 (allocated (suc n)))

unfoldable pub torque_init_ssl : Answers → Library → Run Library
unfolding init_locks allocated
torque_init_ssl a l =
    if not a.library_init_works
    then err l
    else if not a.rand_status_works
    then err l
    else with_num_locks a l a.num_locks

-- The loop of torque_stop_ssl.
unfoldable pub destroy_locks : (left z : ℕ) → List Bool → Run (List Bool)
destroy_locks zero z locks = ok locks
destroy_locks (suc left) z locks =
    mutex_destroy locks z >>= (λ locks'. destroy_locks left (suc z) locks')

-- The array is freed with its mutexes as the loop leaves them.
abbrev pub emptied : List (List Bool) → Run (List Bool) → Run Library
emptied freed (ok locks) = ok (record no_locks { freed = locks ∷ freed })
emptied freed (err locks) = err (record no_locks { freed = locks ∷ freed })
emptied freed Run.fault = fault
emptied freed Run.out_of_fuel = Run.out_of_fuel

-- Whether pthread_mutex_destroy works changes the result only. `free` takes NULL.
abbrev pub stop_by_locks : List (List Bool) → ℕ → Option (List Bool) → Run Library
stop_by_locks freed zero none = ok (record no_locks { freed = freed })
stop_by_locks freed (suc n) none = fault
stop_by_locks freed n (some locks) = emptied freed (destroy_locks n 0 locks)

unfoldable pub torque_stop_ssl : Library → Run Library
unfolding destroy_locks
torque_stop_ssl l = stop_by_locks l.freed l.numlocks l.openssl_locks
