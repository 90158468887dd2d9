-- ===== src/Events/Dispatch/Due.antt =====
-- events/fd.c and events/thread.c: the calls that the reported events lead to.
use libtorque.Base.{
  ℕ, zero, suc, ◌+◌, ◌<◌, ◌≤◌, ◌≡◌, refl, ap, sym, ◌∙◌, Bool, true, false, List, [], ◌∷◌, ◌++◌,
  Option, none, some, Run, ok, ◌>>=◌, All, get_elem?, length, if◌then◌else◌, append_assoc,
  append_nil, arith, get_elem?-inside, All-get_elem?, take_snoc, take_all, take,
}
use libtorque.Events.Sources.{
  EvSource, Event, readable, writable, World, quiet, Call, rx, tx, perform_if, handle_evsource_read,
  handle_evsource_write,
}
use libtorque.Events.Registry.{Sources, Reads}
use libtorque.Events.Wait.{Errno, different, Polled, ready, kevent_retrieve}
use libtorque.Events.Dispatch.{handle_event, EvThread, handled, handle_events, event_thread}

-- The call of a callback, if there is one.
abbrev pub call_if : (ℕ → Call) → Option ℕ → List Call
call_if c none = []
call_if c (some fxn) = c fxn ∷ []

-- The calls that one event is to lead to: the read callback of its descriptor's source where it is
-- readable, then the write callback where it is writable.
abbrev pub due_of : EvSource → Event → List Call
due_of s e =
    (if readable e.events then call_if (λ fxn. rx fxn e.fd s.cbstate) s.rxfxn else [])
    ++ (if writable e.events then call_if (λ fxn. tx fxn e.fd s.cbstate) s.txfxn else [])

abbrev pub due : Sources → Event → List Call
due sources e = due_of (sources e.fd) e

-- The calls of a batch, the last event first.
abbrev pub due_all : Sources → List Event → List Call
due_all sources [] = []
due_all sources (e ∷ es) = due_all sources es ++ due sources e

abbrev pub then_calls : World → List Call → World
then_calls w cs = record w { calls = w.calls ++ cs }

pub perform_if-quiet :
    (w : World) (c : ℕ → Call) (f : Option ℕ) → perform_if quiet c f w ≡ then_calls w (call_if c f)
perform_if-quiet w c none =
    ap (λ (cs : List Call). record w { calls = cs }) (sym (append_nil w.calls))
perform_if-quiet w c (some f) = refl

no_calls : (w : World) → w ≡ then_calls w []
no_calls w = ap (λ (cs : List Call). record w { calls = cs }) (sym (append_nil w.calls))

module _ (evs : List EvSource) (fd : ℕ) (s : EvSource) (here : get_elem? evs fd ≡ some s) where
  pub read_due :
      (b : Bool) (w : World)
      → (if b then handle_evsource_read quiet evs fd w else ok w)
        ≡ ok (then_calls w (if b then call_if (λ fxn. rx fxn fd s.cbstate) s.rxfxn else []))
  unfolding handle_evsource_read
  read_due false w = ap ok (no_calls w)
  read_due true w = rw (here, handle_evsource_read) (ap ok (perform_if-quiet w _ s.rxfxn))

  write_due :
      (b : Bool) (w : World)
      → (if b then handle_evsource_write quiet evs fd w else ok w)
        ≡ ok (then_calls w (if b then call_if (λ fxn. tx fxn fd s.cbstate) s.txfxn else []))
  unfolding handle_evsource_write
  write_due false w = ap ok (no_calls w)
  write_due true w = rw (here, handle_evsource_write) (ap ok (perform_if-quiet w _ s.txfxn))

-- A thread after a batch.
abbrev pub after_batch : EvThread → List Call → ℕ → EvThread
after_batch t cs count = record t { world = then_calls t.world cs; events = t.events + count }

batch_path :
    (t : EvThread) {cs ds : List Call} {k l : ℕ}
    → cs ≡ ds
    → k ≡ l
    → record t { world = record (t.world) { calls = cs }; events = k }
      ≡ record t { world = record (t.world) { calls = ds }; events = l }
batch_path t p q = λ i. record t { world = record (t.world) { calls = p i }; events = q i }

abbrev pub due_batches : Sources → List (List Event) → List Call
due_batches sources [] = []
due_batches sources (es ∷ batches) = due_all sources es ++ due_batches sources batches

abbrev pub total_events : List (List Event) → ℕ
total_events [] = 0
total_events (es ∷ batches) = length es + total_events batches

-- Rounds in which the first wait succeeds and errno is not EINTR.
abbrev pub undisturbed : List (List Event) → List (Errno × List Polled)
undisturbed [] = []
undisturbed (es ∷ batches) = (different, ready es ∷ []) ∷ undisturbed batches

pub round_path :
    (t : EvThread) {cs ds : List Call} {k l r q : ℕ}
    → cs ≡ ds
    → k ≡ l
    → r ≡ q
    → record t { world = record (t.world) { calls = cs }; events = k; rounds = r }
      ≡ record t { world = record (t.world) { calls = ds }; events = l; rounds = q }
round_path t p e f =
    λ i. record t { world = record (t.world) { calls = p i }; events = e i; rounds = f i }

due_all-snoc :
    (sources : Sources) (es : List Event) (e : Event)
    → due_all sources (es ++ (e ∷ [])) ≡ due sources e ++ due_all sources es
due_all-snoc sources [] e = sym (append_nil (due sources e))
due_all-snoc sources (x ∷ es) e =
    ap (λ (cs : List Call). cs ++ due sources x) (due_all-snoc sources es e)
    ∙ append_assoc (due sources e) (due_all sources es) (due sources x)

-- With callbacks that register nothing, an event leads to exactly the calls that are due.
pub handle_event-due :
    (e : Event) (w : World) (s : EvSource)
    → get_elem? w.tables.fdarray e.fd ≡ some s
    → handle_event quiet e w ≡ ok (then_calls w (due_of s e))
unfolding handle_event
handle_event-due e w s here =
    let evs = w.tables.fdarray in
    let first = if readable e.events then call_if (λ fxn. rx fxn e.fd s.cbstate) s.rxfxn else [] in
    ap
      (λ (r : Run World). r >>= (λ w'.
        if writable e.events then handle_evsource_write quiet w'.tables.fdarray e.fd w' else ok w'))
      (read_due evs e.fd s here (readable e.events) w)
    ∙ write_due evs e.fd s here (writable e.events) (then_calls w first)
    ∙ ap (λ (cs : List Call). ok (record w { calls = cs })) (append_assoc w.calls first _)

module _ (n : ℕ) (sources : Sources) where
  handle_events-due :
      (count : ℕ) (buffer : List Event) (t : EvThread)
      → Reads n t.world.tables.fdarray sources
      → All (λ e. e.fd < n) buffer
      → count ≤ length buffer
      → handle_events quiet buffer count t
        ≡ ok (after_batch t (due_all sources (take count buffer)) count)
  unfolding handle_events
  handle_events-due zero buffer t reads inside short =
      ap ok (batch_path t (sym (append_nil t.world.calls)) (omega arith))
  handle_events-due (suc count) buffer t reads inside short =
      let last = get_elem?-inside buffer count short in
      let e = last.0 in
      let below = All-get_elem? (λ e. e.fd < n) buffer count e inside last.1 in
      let step = handle_event-due e t.world (sources e.fd) (reads.entries e.fd below) in
      let t' = after_batch t (due sources e) 1 in
      let split : due_all sources (take (suc count) buffer)
          ≡ due sources e ++ due_all sources (take count buffer) =
        ap (due_all sources) (take_snoc buffer count e last.1)
        ∙ due_all-snoc sources (take count buffer) e in
      rw (last.1, handle_events)
        (ap (λ (r : Run World). handled t r >>= (λ t'. handle_events quiet buffer count t')) step
          ∙ handle_events-due count buffer t' reads inside (omega (arith, short))
          ∙ ap ok (
              batch_path t
                (append_assoc t.world.calls _ _
                  ∙ ap (λ (cs : List Call). t.world.calls ++ cs) (sym split))
                (omega arith)))

  -- Where the waits are not interrupted, each round handles its whole batch, the last event first,
  -- and counts it; with callbacks that register nothing, the thread makes exactly the calls that
  -- are due by the table.
  pub event_thread-due :
      (batches : List (List Event)) (t : EvThread)
      → Reads n t.world.tables.fdarray sources
      → All (λ es. All (λ e. e.fd < n) es) batches
      → event_thread quiet (undisturbed batches) t
        ≡ ok (record t {
          world = then_calls t.world (due_batches sources batches);
          rounds = t.rounds + length batches;
          events = t.events + total_events batches;
        })
  unfolding event_thread kevent_retrieve
  event_thread-due [] t reads inside =
      ap ok (round_path t (sym (append_nil t.world.calls)) (omega arith) (omega arith))
  event_thread-due (es ∷ batches) t reads inside =
      let t1 : EvThread = record t { rounds = t.rounds + 1 } in
      let whole : due_all sources (take (length es) es) ≡ due_all sources es =
        ap (due_all sources) (take_all es) in
      let t2 = after_batch t1 (due_all sources es) (length es) in
      ap (λ (r : Run EvThread). r >>= (λ t'. event_thread quiet (undisturbed batches) t'))
        (handle_events-due (length es) es t1 reads inside.0 (omega arith)
          ∙ ap (λ (cs : List Call). ok (after_batch t1 cs (length es))) whole)
      ∙ event_thread-due batches t2 reads inside.1
      ∙ ap ok (round_path t (append_assoc t.world.calls _ _) (omega arith) (omega arith))
