-- ===== src/Context/Held.antt =====
-- torque.c and events/evq.c: what is held once a context was made, and where it could not be made.
use libtorque.Base.{
  ℕ, ◌+◌, ◌≡◌, ◌⊎◌, inl, inr, refl, Bool, true, false, ◌||◌, not, List, Option, none, some, Run, ok,
  err, ◌>>=◌, ltb, length, ◌==◌, if_cases, if◌then◌else◌, arith,
}
use libtorque.Events.Sources.{EvSource, EvTables, World, setup_evsource, create_evsources}
use libtorque.Events.Signals.{
  Signalfd, opened, enosys, other_error, Addresses, with_table, setup_common, then_handlers,
  registered, initialize_common_sources, evthread_term, evthread_int,
}
use libtorque.Context.{
  Answers, Ledger, blocks, opened_fds, dns_started, fd_count, common_opened, Etables, tables,
  no_tables, destroyed_unless, initialize_etables, free_etables, Queue, queue, no_queue,
  add_commonfds_to_evhandler, queue_unless, with_efd, init_evqueue, Made, made, not_made,
  with_queue, with_tables, create_torque_ctx,
}

abbrev NotErr : Run EvTables → Type 0
NotErr (ok t) = Unit
NotErr (err t) = ⊥
NotErr Run.fault = Unit
NotErr Run.out_of_fuel = Unit

with_table-NotErr :
    (r : Run (List EvSource)) (k : List EvSource → Run EvTables)
    → ((evs : List EvSource) → NotErr (k evs))
    → NotErr (with_table r k)
with_table-NotErr (ok evs) k h = h evs
with_table-NotErr (err evs) k h = h evs
with_table-NotErr Run.fault k h = tt
with_table-NotErr Run.out_of_fuel k h = tt

-- How many descriptors are open once the common sources are registered or not.
abbrev CommonEnd : Bool → ℕ → Run EvTables → Type 0
CommonEnd handlers_work count (ok t) = count ≡ 1
CommonEnd handlers_work count (err t) = (count ≡ 0) ⊎ ((handlers_work ≡ false) × (count ≡ 1))
CommonEnd handlers_work count Run.fault = Unit
CommonEnd handlers_work count Run.out_of_fuel = Unit

handlers-CommonEnd :
    (works : Bool) (r : Run EvTables) → NotErr r → CommonEnd works 1 (r >>= then_handlers works)
handlers-CommonEnd true (ok t) h = refl
handlers-CommonEnd false (ok t) h = inr (refl, refl)
handlers-CommonEnd works (err t) h = absurd h
handlers-CommonEnd works Run.fault h = tt
handlers-CommonEnd works Run.out_of_fuel h = tt

registered-CommonEnd :
    (a : Addresses) (works : Bool) (t : EvTables) (s : Signalfd)
    → CommonEnd works (fd_count s) (registered a works t s)
unfolding setup_common
registered-CommonEnd a works t (opened fd) = handlers-CommonEnd works _ (
    with_table-NotErr (setup_evsource t.fdarray fd _ _ _) _ (λ fds.
      with_table-NotErr (setup_evsource t.sigarray evthread_term _ _ _) _
        (λ sigs. with_table-NotErr (setup_evsource sigs evthread_int _ _ _) _ (λ sigs'. tt))))
registered-CommonEnd a works t enosys = inl refl
registered-CommonEnd a works t other_error = inl refl

initialize_common_sources-CommonEnd :
    (a : Addresses) (answers : Answers) (t : EvTables)
    → CommonEnd answers.handlers_work
        (common_opened answers t)
        (initialize_common_sources a answers.sigset_works answers.signalfd answers.handlers_work t)
unfolding initialize_common_sources common_opened
initialize_common_sources-CommonEnd a answers t =
    cases
      (not (ltb evthread_term (length t.sigarray)) || not (ltb evthread_int (length t.sigarray)))
      (not answers.sigset_works)
  where
    cases :
        (b c : Bool)
        → CommonEnd answers.handlers_work
            (if b then 0 else if c then 0 else fd_count answers.signalfd)
            (if b
              then err t
              else if c
              then err t
              else registered a answers.handlers_work t answers.signalfd)
    cases true c = inl refl
    cases false true = inl refl
    cases false false = registered-CommonEnd a answers.handlers_work t answers.signalfd

-- Numbers more than a ledger has.
abbrev pub Gained : Ledger → (heap fds dns : ℕ) → Ledger → Type 0
Gained l heap fds dns l' =
    (l'.heap ≡ l.heap + heap) × (l'.fds ≡ l.fds + fds) × (l'.dns ≡ l.dns + dns)

-- Nothing more, but for a signalfd where init_signal_handlers fails.
abbrev pub NothingBut : Answers → Ledger → Ledger → Type 0
NothingBut a l l' = Gained l 0 0 0 l' ⊎ ((a.handlers_work ≡ false) × Gained l 0 1 0 l')

abbrev EtablesEnd : Answers → Ledger → Etables → Type 0
EtablesEnd a l (tables t l') = Gained l 2 1 0 l'
EtablesEnd a l (no_tables l') = NothingBut a l l'
EtablesEnd a l Etables.crash = Unit

destroyed_unless-EtablesEnd :
    (a : Answers) (l : Ledger) (count : ℕ) (r : Run EvTables)
    → CommonEnd a.handlers_work count r
    → EtablesEnd a l (destroyed_unless r (opened_fds count (blocks 2 l)))
destroyed_unless-EtablesEnd a l count (ok t) h = (refl, omega (arith, h), omega arith)
destroyed_unless-EtablesEnd a l count (err t) (inl h) =
    inl (omega arith, omega (arith, h), omega arith)
destroyed_unless-EtablesEnd a l count (err t) (inr (failing, h)) =
    inr (failing, (omega arith, omega (arith, h), omega arith))
destroyed_unless-EtablesEnd a l count Run.fault h = tt
destroyed_unless-EtablesEnd a l count Run.out_of_fuel h = tt

nothing-EtablesEnd : (a : Answers) (l : Ledger) → NothingBut a l l
nothing-EtablesEnd a l = inl (omega arith, omega arith, omega arith)

initialize_etables-EtablesEnd :
    (a : Answers) (addresses : Addresses) (l : Ledger)
    → EtablesEnd a l (initialize_etables a addresses l)
unfolding initialize_etables
initialize_etables-EtablesEnd a addresses l =
    let t : EvTables = record {
      fdarray = create_evsources a.max_fds;
      sigarray = create_evsources a.sigrtmax;
    } in
    if_cases (EtablesEnd a l) (a.max_fds == 0) _ _ (λ _. nothing-EtablesEnd a l)
      (λ _.
        if_cases (EtablesEnd a l) (not a.fdarray_malloc) _ _ (λ _. nothing-EtablesEnd a l)
          (λ _.
            if_cases (EtablesEnd a l) (not a.sigarray_malloc) _ _
              (λ _. inl (omega arith, omega arith, omega arith))
              (λ _.
                destroyed_unless-EtablesEnd a l (common_opened a t) _
                  (initialize_common_sources-CommonEnd addresses a t))))

abbrev QueueEnd : Ledger → Queue → Type 0
QueueEnd l (queue w l') = Gained l 0 1 1 l'
QueueEnd l (no_queue l') = Gained l 0 0 0 l'

queue_unless-QueueEnd :
    (l : Ledger) (r : World × Bool) → QueueEnd l (queue_unless r (opened_fds 1 (dns_started l)))
queue_unless-QueueEnd l (w, true) = (omega arith, omega arith, omega arith)
queue_unless-QueueEnd l (w, false) = (omega arith, omega arith, omega arith)

with_efd-QueueEnd :
    (a : Answers) (w : World) (l : Ledger) (efd : Option ℕ)
    → QueueEnd l (with_efd a w (dns_started l) efd)
with_efd-QueueEnd a w l none = (omega arith, omega arith, omega arith)
with_efd-QueueEnd a w l (some efd) =
    if_cases (QueueEnd l) (not a.load_dns_fds) _ _ (λ _. (omega arith, omega arith, omega arith))
      (λ _. queue_unless-QueueEnd l (add_commonfds_to_evhandler a.kernel _ w))

init_evqueue-QueueEnd : (a : Answers) (w : World) (l : Ledger) → QueueEnd l (init_evqueue a w l)
unfolding init_evqueue
init_evqueue-QueueEnd a w l =
    if_cases (QueueEnd l) (not a.dns_init) _ _ (λ _. (omega arith, omega arith, omega arith))
      (λ _. with_efd-QueueEnd a w l a.epoll_create)

-- How create_torque_ctx ends: with three blocks, two descriptors and an adns state, or with nothing
-- more than it had, but for a signalfd that a failure of init_signal_handlers leaves open. Without an
-- error in `*e` it is malloc that failed.
abbrev pub Balances : Answers → Ledger → Made → Type 0
Balances a l (made w l') = Gained l 3 2 1 l'
Balances a l (not_made (some e) l') = NothingBut a l l'
Balances a l (not_made none l') = (a.ctx_malloc ≡ false) × Gained l 0 0 0 l'
Balances a l Made.crash = Unit

with_queue-Balances :
    (a : Answers) (l l1 : Ledger) (q : Queue)
    → Gained (blocks 1 l) 2 1 0 l1
    → QueueEnd l1 q
    → Balances a l (with_queue q)
unfolding free_etables
with_queue-Balances a l l1 (queue w l2) (h, f, d) (h', f', d') =
    (omega (arith, h, h'), omega (arith, f, f'), omega (arith, d, d'))
with_queue-Balances a l l1 (no_queue l2) (h, f, d) (h', f', d') =
    inl (omega (arith, h, h'), omega (arith, f, f'), omega (arith, d, d'))

with_tables-Balances :
    (a : Answers) (l : Ledger) (t : Etables)
    → EtablesEnd a (blocks 1 l) t
    → Balances a l (with_tables a t)
with_tables-Balances a l (tables t l1) gained =
    with_queue-Balances a l l1 _ gained (init_evqueue-QueueEnd a _ l1)
with_tables-Balances a l (no_tables l1) (inl (h, f, d)) =
    inl (omega (arith, h), omega (arith, f), omega (arith, d))
with_tables-Balances a l (no_tables l1) (inr (failing, (h, f, d))) =
    inr (failing, (omega (arith, h), omega (arith, f), omega (arith, d)))
with_tables-Balances a l Etables.crash h = tt

-- A context that is made holds three blocks, two descriptors and an adns state. Where
-- create_torque_ctx fails it gives back all that it took, but for a signalfd where
-- init_signal_handlers fails; and it reports an error unless malloc fails for the context itself.
pub create_torque_ctx-Balances :
    (a : Answers) (addresses : Addresses) (l : Ledger)
    → Balances a l (create_torque_ctx a addresses l)
unfolding create_torque_ctx
create_torque_ctx-Balances a addresses l =
    if_cases (Balances a l) (not a.ctx_malloc) _ _
      (λ e. (refused a.ctx_malloc e, (omega arith, omega arith, omega arith)))
      (λ _.
        with_tables-Balances a l (initialize_etables a addresses (blocks 1 l))
          (initialize_etables-EtablesEnd a addresses (blocks 1 l)))
  where
    refused : (b : Bool) → not b ≡ true → b ≡ false
    refused true e = cc e
    refused false e = refl
