-- ===== src/Tls/Dispatched.antt =====
-- events/thread.c with protos/ssl.c: what handle_event does with an event of a TLS connection.
use libtorque.Base.{
  ℕ, suc, ◌≡◌, refl, sym, ap, ◌∙◌, subst, Bool, true, ◌&&◌, List, Option, none, some, get_elem?,
  ◌⊎◌, inl, inr, ◌==◌, if◌then◌else◌,
}
use libtorque.Buffers.{minus, rxbuffer_valid, rxbuffer_advance}
use libtorque.Events.Sources.{EvSource, EpollFlags, readable, writable}
use libtorque.Events.Dispatch.{is_some}
use libtorque.Tls.{
  other_error, Transfer, moved, zero_with, negative_with, Host, Tls, Outcome, kept, dropped, crash,
  out_of_fuel, ssl_rxfxn_at, ssl_txrxfxn_at, ssl_txfxn_at, accept_contrxfxn_at, accept_conttxfxn_at,
  drop_conn, accept_contrxfxn, accept_conttxfxn,
}
use libtorque.Tls.Reading.{rxbuffer_ssl, ssl_rxfxn, ssl_txrxfxn, ssl_txfxn, stored, read_round}

-- The call of a callback by its address.
abbrev pub call_at : {K C : Type 0} → ℕ → Host K C → ℕ → ℕ → Tls K C → Outcome K C
call_at fuel h fd fxn s =
    if fxn == ssl_rxfxn_at
    then ssl_rxfxn fuel h fd s
    else if fxn == ssl_txrxfxn_at
    then ssl_txrxfxn fuel h fd s
    else if fxn == ssl_txfxn_at
    then ssl_txfxn h fd s
    else if fxn == accept_contrxfxn_at
    then accept_contrxfxn h fd s
    else if fxn == accept_conttxfxn_at
    then accept_conttxfxn h fd s
    else crash

abbrev pub call_if : {K C : Type 0} → ℕ → Host K C → ℕ → Option ℕ → Tls K C → Outcome K C
call_if fuel h fd none s = kept s
call_if fuel h fd (some fxn) s = call_at fuel h fd fxn s

-- The read or the write callback of the descriptor's entry.
abbrev pub callback_of : {K C : Type 0} → (EvSource → Option ℕ) → ℕ → Tls K C → Option ℕ
callback_of which fd s = elim (get_elem? s.process.world.tables.fdarray fd) [
  | none ↦ none
  | some src ↦ which src
]

-- The second half of handle_event. The entry of a dropped connection is still there, and its
-- callback is called with the freed state.
abbrev pub then_write : {K C : Type 0} → ℕ → Host K C → ℕ → EpollFlags → Outcome K C → Outcome K C
then_write fuel h fd events (kept s) =
    if writable events then call_if fuel h fd (callback_of (λ src. src.txfxn) fd s) s else kept s
then_write fuel h fd events (dropped s) =
    if writable events && is_some (callback_of (λ src. src.txfxn) fd s) then crash else dropped s
then_write fuel h fd events crash = crash
then_write fuel h fd events out_of_fuel = out_of_fuel

-- handle_event, of a descriptor inside the table.
unfoldable pub tls_event : {K C : Type 0} → ℕ → Host K C → ℕ → EpollFlags → Tls K C → Outcome K C
tls_event fuel h fd events s =
    then_write fuel h fd events (
      if readable events then call_if fuel h fd (callback_of (λ src. src.rxfxn) fd s) s else kept s)

-- The next read fails, or the client stops at what it gives.
abbrev pub Ends : {K C : Type 0} → Host K C → Tls K C → Type 0
Ends h s =
    let r = rxbuffer_ssl h s in
    (r.1 ≡ negative_with other_error)
    ⊎ ((bs : List ℕ) × (r.1 ≡ moved bs) × ((h.rx r.0.client (rxbuffer_valid r.0.rxb)).stops ≡ true))

-- The entry of a connection with both callbacks.
abbrev pub HasBoth : {K C : Type 0} → ℕ → Tls K C → Type 0
HasBoth fd s =
    (v : ℕ) × (get_elem? s.process.world.tables.fdarray fd
      ≡ some (record { rxfxn = some ssl_rxfxn_at; txfxn = some ssl_txfxn_at; cbstate = v }))

-- Dropped, with the tables as they were.
abbrev DropsIn : {K C : Type 0} → Tls K C → Outcome K C → Type 0
DropsIn {K} {C} s o = (s' : Tls K C) × (o ≡ dropped s') × (s'.process.world ≡ s.process.world)

read_round-DropsIn :
    {K C : Type 0} (h : Host K C) (fd : ℕ) (again : Tls K C → Outcome K C) (s : Tls K C)
    (r : Tls K C × Transfer (List ℕ))
    → r.0.rxfxn ≡ true
    → r.0.process ≡ s.process
    → (r.1 ≡ negative_with other_error)
      ⊎ ((bs : List ℕ) × (r.1 ≡ moved bs)
          × ((h.rx r.0.client (rxbuffer_valid r.0.rxb)).stops ≡ true))
    → DropsIn s (read_round again h fd r)
read_round-DropsIn h fd again s (s1, t) reads same (inl e) =
    subst (λ t'. DropsIn s (read_round again h fd (s1, t'))) (sym e)
      (_, refl, ap (λ p. p.world) same)
read_round-DropsIn h fd again s (s1, t) reads same (inr (bs, e, stops)) =
    let r = h.rx s1.client (rxbuffer_valid s1.rxb) in
    let s2 = record s1 { client = r.client; rxb = rxbuffer_advance r.released s1.rxb } in
    subst (λ t'. DropsIn s (read_round again h fd (s1, t'))) (sym e)
      (subst
        (λ (c : Bool).
          DropsIn s (if c then (if r.stops then drop_conn s2 else again s2) else crash))
        (sym reads)
        (subst (λ (b : Bool). DropsIn s (if b then drop_conn s2 else again s2)) (sym stops)
          (_, refl, ap (λ p. p.world) same)))

rxbuffer_ssl_fields :
    {K C : Type 0} (h : Host K C) (s : Tls K C)
    → ((rxbuffer_ssl h s).0.rxfxn ≡ s.rxfxn) × ((rxbuffer_ssl h s).0.process ≡ s.process)
unfolding rxbuffer_ssl
rxbuffer_ssl_fields {K} {C} h s = by_read (h.ssl_read s.ssl (minus s.rxb.buftot s.rxb.bufoff))
  where
    by_read :
        (r : K × Transfer (List ℕ))
        → ((stored (record s { ssl = r.0 }) r.1).rxfxn ≡ s.rxfxn)
          × ((stored (record s { ssl = r.0 }) r.1).process ≡ s.process)
    by_read (k, moved bs) = (refl, refl)
    by_read (k, zero_with e) = (refl, refl)
    by_read (k, negative_with e) = (refl, refl)

ssl_rxfxn-DropsIn :
    {K C : Type 0} (h : Host K C) (fd fuel : ℕ) (s : Tls K C)
    → s.rxfxn ≡ true
    → Ends h s
    → DropsIn s (ssl_rxfxn (suc fuel) h fd s)
unfolding ssl_rxfxn
ssl_rxfxn-DropsIn h fd fuel s reads ends =
    let fields = rxbuffer_ssl_fields h s in
    read_round-DropsIn h fd (λ s'. ssl_rxfxn fuel h fd s') s (rxbuffer_ssl h s) (fields.0 ∙ reads)
      fields.1 ends

callback_of_lem :
    {K C : Type 0} (which : EvSource → Option ℕ) (fd : ℕ) (s : Tls K C) (src : EvSource)
    → get_elem? s.process.world.tables.fdarray fd ≡ some src
    → callback_of which fd s ≡ which src
callback_of_lem which fd s src e = rw (e, callback_of) refl

-- An event that is readable and writable, on a connection with both callbacks whose next read fails
-- or is the client's last, has ssl_txfxn called with the state that ssl_rxfxn has freed.
pub tls_event_crashes :
    {K C : Type 0} (h : Host K C) (fd fuel : ℕ) (events : EpollFlags) (s : Tls K C)
    → readable events ≡ true
    → writable events ≡ true
    → HasBoth fd s
    → s.rxfxn ≡ true
    → Ends h s
    → tls_event (suc fuel) h fd events s ≡ crash
unfolding tls_event
tls_event_crashes h fd fuel events s in_ready out_ready (v, entry) reads ends =
    let (s', e, same) = ssl_rxfxn-DropsIn h fd fuel s reads ends in
    let source : EvSource = record {
      rxfxn = some ssl_rxfxn_at;
      txfxn = some ssl_txfxn_at;
      cbstate = v;
    } in
    let called = callback_of_lem (λ src. src.rxfxn) fd s source entry in
    let left =
      callback_of_lem (λ src. src.txfxn) fd s' source
        (ap (λ w. get_elem? w.tables.fdarray fd) same ∙ entry) in
    let next = then_write (suc fuel) h fd events in
    ap
      (λ (b : Bool).
        next
          (if b then call_if (suc fuel) h fd (callback_of (λ src. src.rxfxn) fd s) s else kept s))
      in_ready
    ∙ ap (λ (f : Option ℕ). next (call_if (suc fuel) h fd f s)) called
    ∙ ap next e
    ∙ ap (λ (f : Option ℕ). if writable events && is_some f then crash else dropped s') left
    ∙ ap (λ (b : Bool). if b && true then crash else dropped s') out_ready
