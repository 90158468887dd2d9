-- ===== src/Context/Success.antt =====
-- torque.c and events/evq.c: a context is made where nothing is refused.
use libtorque.Base.{
  ℕ, zero, suc, ◌<◌, ◌≡◌, refl, ap, ◌∙◌, Bool, true, false, ◌&&◌, not, List, [], Option, none, some,
  Run, ok, ltb, ◌==◌, length, length-set, get_elem?-inside, lt→ltb, if◌then◌else◌, arith,
}
use libtorque.Events.Sources.{EvSource, EvTables, World, Request, create_evsources, setup_evsource}
use libtorque.Events.Registry.{setup_evsource_lem, update-some}
use libtorque.Events.Wait.{kevent_change, make_changes}
use libtorque.Events.Signals.{
  opened, Addresses, setup_common, initialize_common_sources, evthread_term, evthread_int,
}
use libtorque.Context.{
  Answers, Ledger, blocks, free_blocks, close_fds, dns_shutdown, common_signalfd, opened_fds,
  dns_started, common_opened, tables, no_tables, destroyed_unless, initialize_etables, queue,
  no_queue, add_commonfds_to_evhandler, queue_unless, with_efd, init_evqueue, made, not_made,
  with_queue, with_tables, create_torque_ctx,
}

-- malloc, the kernel and adns refuse nothing; there are entries for the signalfd and for the signals
-- that end the threads.
pub record Grants (a : Answers) : Type 0 where
  pub ctx_malloc : a.ctx_malloc ≡ true
  pub fdarray_malloc : a.fdarray_malloc ≡ true
  pub sigarray_malloc : a.sigarray_malloc ≡ true
  pub sigset_works : a.sigset_works ≡ true
  pub common_signalfd : ℕ
  pub signalfd : a.signalfd ≡ opened common_signalfd
  pub inside : common_signalfd < a.max_fds
  pub signals : evthread_term < a.sigrtmax
  pub handlers_work : a.handlers_work ≡ true
  pub dns_init : a.dns_init ≡ true
  pub efd : ℕ
  pub epoll_create : a.epoll_create ≡ some efd
  pub load_dns_fds : a.load_dns_fds ≡ true
  pub kernel : (asked : List Request) (r : Request) → a.kernel asked r ≡ true

length-create_evsources : (n : ℕ) → length (create_evsources n) ≡ n
unfolding create_evsources
length-create_evsources zero = refl
length-create_evsources (suc n) = ap suc (length-create_evsources n)

setup_evsource-length :
    (evs : List EvSource) (n : ℕ) (rx tx : Option ℕ) (v : ℕ)
    → n < length evs
    → (evs' : List EvSource) × (setup_evsource evs n rx tx v ≡ ok evs') × (length evs' ≡ length evs)
setup_evsource-length evs n rx tx v inside =
    let (e, found) = get_elem?-inside evs n inside in
    (_, setup_evsource_lem evs n rx tx v ∙ update-some evs n e _ found, length-set evs n _)

-- Both arrays are long enough.
setup_common-succeeds :
    (addresses : Addresses) (fd : ℕ) (t : EvTables)
    → fd < length t.fdarray
    → evthread_term < length t.sigarray
    → (t' : EvTables) × (setup_common addresses fd t ≡ ok t')
unfolding setup_common
setup_common-succeeds addresses fd t inside signals =
    let stop = some addresses.rxcommonsignal in
    let demux = some addresses.signalfd_demultiplexer in
    let ctx = addresses.ctx in
    let (fds, e, _) = setup_evsource-length t.fdarray fd demux none ctx inside in
    let (sigs, e', same) = setup_evsource-length t.sigarray evthread_term stop none ctx signals in
    let (sigs', e'', _) =
      setup_evsource-length sigs evthread_int stop none ctx (omega (arith, same, signals)) in
    (record { fdarray = fds; sigarray = sigs' }, rw (e, e', e'') refl)

module _ (a : Answers) (g : Grants a) (addresses : Addresses) where
  initialize_common_sources-succeeds :
      (t : EvTables)
      → g.common_signalfd < length t.fdarray
      → evthread_term < length t.sigarray
      → (t' : EvTables) × (initialize_common_sources addresses a.sigset_works a.signalfd
            a.handlers_work t
          ≡ ok t')
  unfolding initialize_common_sources
  initialize_common_sources-succeeds t inside signals =
      let (t', e) = setup_common-succeeds addresses g.common_signalfd t inside signals in
      let term : ltb evthread_term (length t.sigarray) ≡ true = lt→ltb _ _ signals in
      let int : ltb evthread_int (length t.sigarray) ≡ true = lt→ltb _ _ (omega (arith, signals)) in
      (t', rw (term, int, g.sigset_works, g.signalfd, g.handlers_work, e) refl)

  initialize_etables-succeeds :
      (l : Ledger)
      → (t : EvTables) × (l' : Ledger) × (initialize_etables a addresses l ≡ tables t l')
  unfolding initialize_etables
  initialize_etables-succeeds l =
      let t : EvTables = record {
        fdarray = create_evsources a.max_fds;
        sigarray = create_evsources a.sigrtmax;
      } in
      let (t', e) =
        initialize_common_sources-succeeds t
          (omega (arith, g.inside, length-create_evsources a.max_fds))
          (omega (arith, g.signals, length-create_evsources a.sigrtmax)) in
      let some_fds : (a.max_fds == 0) ≡ false = ground (arith, g.inside) in
      let left = opened_fds (common_opened a t) (blocks 2 l) in
      let common =
        initialize_common_sources addresses a.sigset_works a.signalfd a.handlers_work t in
      let last = destroyed_unless common left in
      let kept = no_tables (free_blocks 1 (blocks 1 l)) in
      (
        t',
        left,
        ap
              (λ (b : Bool).
                if b
                then no_tables l
                else if not a.fdarray_malloc
                then no_tables l
                else if not a.sigarray_malloc
                then kept
                else last)
              some_fds
            ∙ ap
                (λ (b : Bool).
                  if not b then no_tables l else if not a.sigarray_malloc then kept else last)
                g.fdarray_malloc
            ∙ ap (λ (b : Bool). if not b then kept else last) g.sigarray_malloc
            ∙ ap (λ (r : Run EvTables). destroyed_unless r left) e,
      )

  init_evqueue-succeeds :
      (w : World) (l : Ledger) → (w' : World) × (l' : Ledger) × (init_evqueue a w l ≡ queue w' l')
  unfolding init_evqueue add_commonfds_to_evhandler kevent_change make_changes
  init_evqueue-succeeds w l =
      let l1 = dns_started l in
      let l2 = opened_fds 1 l1 in
      let added = add_commonfds_to_evhandler a.kernel (common_signalfd a.signalfd) w in
      (
        added.0,
        l2,
        ap (λ (b : Bool). if not b then no_queue l else with_efd a w l1 a.epoll_create) g.dns_init
            ∙ ap (with_efd a w l1) g.epoll_create
            ∙ ap
                (λ (b : Bool).
                  if not b then no_queue (dns_shutdown (close_fds 1 l2)) else queue_unless added l2)
                g.load_dns_fds
            ∙ ap (λ (b : Bool). queue_unless (added.0, b && true) l2) (g.kernel w.asked _),
      )

  -- Where nothing is refused, the context is made.
  pub create_torque_ctx-succeeds :
      (l : Ledger) → (w : World) × (l' : Ledger) × (create_torque_ctx a addresses l ≡ made w l')
  unfolding create_torque_ctx
  create_torque_ctx-succeeds l =
      let (t, l1, e) = initialize_etables-succeeds (blocks 1 l) in
      let (w, l2, e') = init_evqueue-succeeds (record { tables = t; asked = []; calls = [] }) l1 in
      (
        w,
        l2,
        ap
              (λ (b : Bool).
                if not b
                then not_made none l
                else with_tables a (initialize_etables a addresses (blocks 1 l)))
              g.ctx_malloc
            ∙ ap (with_tables a) e
            ∙ ap with_queue e',
      )
