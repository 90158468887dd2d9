-- ===== src/Events/Signals/Delivered.antt =====
-- events/signal.c and events/sysdep.c: the calls that the delivery of signals leads to.
use libtorque.Base.{
  ℕ, suc, ◌+◌, ◌-◌, ◌<◌, ◌≤◌, ◌≡◌, refl, ap, sym, ◌∙◌, Bool, true, List, [], ◌∷◌, ◌++◌, Option,
  none, some, Run, ok, fault, ◌>>=◌, All, get_elem?, get_elem?-beyond, length, ltb, leb,
  if◌then◌else◌, append_assoc, append_nil, arith,
}
use libtorque.Events.Sources.{
  EvSource, World, Client, quiet, Call, rx, epoll_ctl_add, handle_evsource_read,
}
use libtorque.Events.Registry.{Sources, Reads}
use libtorque.Events.Wait.{Kernel}
use libtorque.Events.Dispatch.{EvThread, handled}
use libtorque.Events.Dispatch.Due.{call_if, then_calls, round_path, read_due}
use libtorque.Events.Dispatch.Added.{source, entry_of, add_fd_to_evhandler-due}
use libtorque.Events.Signals.{
  SigRead, siginfo, short_read, interrupted, signalfd_demultiplexer, setup_signals, opened, success,
  add_signal_to_evhandler, with_sigarray, add_signalfd, answer_of, no_flags,
}
use libtorque.Events.Signals.Members.{setup_signals-Reads, covered}

-- The calls for the signals that were read, in order.
abbrev pub signal_calls : Sources → List SigRead → List Call
signal_calls sources [] = []
signal_calls sources (siginfo sig ∷ rs) =
    call_if (λ fxn. rx fxn sig (sources sig).cbstate) (sources sig).rxfxn ++ signal_calls sources rs
signal_calls sources (short_read ∷ rs) = signal_calls sources rs
signal_calls sources (interrupted ∷ rs) = signal_calls sources rs

abbrev pub signals_in : List SigRead → ℕ
signals_in [] = 0
signals_in (siginfo sig ∷ rs) = suc (signals_in rs)
signals_in (short_read ∷ rs) = signals_in rs
signals_in (interrupted ∷ rs) = signals_in rs

abbrev pub Inside : ℕ → SigRead → Type 0
Inside n (siginfo sig) = sig < n
Inside n short_read = Unit
Inside n interrupted = Unit

module _ (n : ℕ) (sources : Sources) where
  -- signalfd_demultiplexer calls the read callback of each signal that it reads, in order, and
  -- counts them.
  pub signalfd_demultiplexer-calls :
      (reads : List SigRead) (t : EvThread)
      → Reads n t.world.tables.sigarray sources
      → All (Inside n) reads
      → signalfd_demultiplexer quiet reads t
        ≡ ok (record t {
          world = then_calls t.world (signal_calls sources reads);
          events = t.events + signals_in reads;
        })
  unfolding signalfd_demultiplexer handle_evsource_read
  signalfd_demultiplexer-calls [] t table inside =
      ap ok (round_path t (sym (append_nil t.world.calls)) (omega arith) refl)
  signalfd_demultiplexer-calls (siginfo sig ∷ rs) t table inside =
      let evs = t.world.tables.sigarray in
      let calls = call_if (λ fxn. rx fxn sig (sources sig).cbstate) (sources sig).rxfxn in
      let t1 : EvThread = record t { world = then_calls t.world calls; events = t.events + 1 } in
      ap (λ (r : Run World). handled t r >>= (λ t'. signalfd_demultiplexer quiet rs t'))
        (read_due evs sig (sources sig) (table.entries sig inside.0) true t.world)
      ∙ signalfd_demultiplexer-calls rs t1 table inside.1
      ∙ ap ok (round_path t (append_assoc t.world.calls calls _) (omega arith) refl)
  signalfd_demultiplexer-calls (short_read ∷ rs) t table inside =
      signalfd_demultiplexer-calls rs t table inside.1
  signalfd_demultiplexer-calls (interrupted ∷ rs) t table inside =
      signalfd_demultiplexer-calls rs t table inside.1

signalfd_demultiplexer_beyond :
    (client : Client) (sig : ℕ) (rs : List SigRead) (t : EvThread)
    → length t.world.tables.sigarray ≤ sig
    → signalfd_demultiplexer client (siginfo sig ∷ rs) t ≡ fault
unfolding signalfd_demultiplexer handle_evsource_read
signalfd_demultiplexer_beyond client sig rs t outside =
    let missing = get_elem?-beyond t.world.tables.sigarray sig outside in
    rw (missing, handle_evsource_read) refl

delivered :
    (t : EvThread) (sig : ℕ) (s : EvSource)
    → get_elem? t.world.tables.sigarray sig ≡ some s
    → signalfd_demultiplexer quiet (siginfo sig ∷ []) t
      ≡ ok (record t {
        world = then_calls t.world (call_if (λ fxn. rx fxn sig s.cbstate) s.rxfxn);
        events = t.events + 1;
      })
unfolding signalfd_demultiplexer
delivered t sig s here =
    ap (λ (r : Run World). handled t r >>= (λ t'. signalfd_demultiplexer quiet [] t'))
      (read_due t.world.tables.sigarray sig s here true t.world)

module _ (kernel : Kernel) (demux ctx fd : ℕ) (sigs : ℕ → Bool) (rfxn : Option ℕ) (cbstate : ℕ)
    (w : World) (n : ℕ) (sources : Sources) where
  -- Where signalfd opens a descriptor that the table has an entry for and the kernel agrees to its
  -- registration, add_signal_to_evhandler succeeds. From then on a signal of the set whose number is
  -- inside the table leads to the registered callback, and only to it; but one whose number is the
  -- table's size makes signalfd_demultiplexer read outside of it.
  pub add_signal_to_evhandler-delivers :
      Reads n w.tables.sigarray sources
      → 0 < n
      → fd < length w.tables.fdarray
      → kernel w.asked (epoll_ctl_add (entry_of fd (some demux) none no_flags)) ≡ true
      → (w' : World) × (add_signal_to_evhandler kernel demux ctx (opened fd) sigs rfxn cbstate w
          ≡ success w')
        × ((t : EvThread) (sig : ℕ)
            → 0 < sig
            → sig < n
            → sigs sig ≡ true
            → signalfd_demultiplexer quiet (siginfo sig ∷ []) (record t { world = w' })
              ≡ ok (record t {
                world = then_calls w' (call_if (λ fxn. rx fxn sig cbstate) rfxn);
                events = t.events + 1;
              }))
        × ((t : EvThread)
            → signalfd_demultiplexer quiet (siginfo n ∷ []) (record t { world = w' }) ≡ fault)
  unfolding add_signal_to_evhandler
  add_signal_to_evhandler-delivers table some_signals inside agrees =
      let evs = w.tables.sigarray in
      let sized = table.size in
      let same : length evs - 1 ≡ n - 1 = ap (λ (k : ℕ). k - 1) sized in
      let set_up =
        setup_signals-Reads n sigs rfxn cbstate (n - 1) 1 evs sources table
          (omega (arith, some_signals)) in
      let w1 : World = record w { tables = record (w.tables) { sigarray = set_up.0 } } in
      let added =
        add_fd_to_evhandler-due kernel w1 fd (some demux) none ctx no_flags inside refl agrees in
      let w' = added.0 in
      let listed = added.4 in
      (
        w',
        ap
              (λ (k : ℕ).
                add_signalfd kernel demux ctx (opened fd)
                  (with_sigarray w (setup_signals sigs rfxn cbstate k 1 evs)))
              same
            ∙ ap
                (λ (r : Run (List EvSource)).
                  add_signalfd kernel demux ctx (opened fd) (with_sigarray w r))
                set_up.1
            ∙ ap answer_of added.1,
        (λ t sig positive below member.
            delivered (record t { world = w' }) sig (source rfxn none cbstate)
              (ap (λ (evs' : List EvSource). get_elem? evs' sig) listed
                ∙ set_up.2.entries sig below
                ∙ ap some (is_covered sig positive below member))),
        (λ t.
            signalfd_demultiplexer_beyond quiet n [] (record t { world = w' })
              (omega (arith, ap length listed, set_up.2.size))),
      )
    where
      is_covered :
          (sig : ℕ)
          → 0 < sig
          → sig < n
          → sigs sig ≡ true
          → (if covered sigs (n - 1) 1 sig then source rfxn none cbstate else sources sig)
            ≡ source rfxn none cbstate
      is_covered sig positive below member =
          let low : leb 1 sig ≡ true = ground (arith, positive) in
          let high : ltb sig (1 + (n - 1)) ≡ true = ground (arith, positive, below) in
          rw (low, high, member) refl
