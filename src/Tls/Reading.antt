-- ===== src/Tls/Reading.antt =====
-- protos/ssl.c: the callbacks that read from an established connection and write to it.
use libtorque.Base.{ℕ, zero, suc, ◌+◌, ◌%◌, true, false, List, none, some, length, if◌then◌else◌}
use libtorque.Buffers.{size_t, minus, write_at, rxbuffer_valid, rxbuffer_advance}
use libtorque.Tls.{
  SslError, want_read, want_write, other_error, Transfer, moved, zero_with, negative_with, Host,
  Tls, Outcome, kept, crash, out_of_fuel, ssl_rxfxn_at, ssl_txrxfxn_at, drop_conn, events_of,
  redirect, rearm,
}

abbrev pub stored : {K C : Type 0} → Tls K C → Transfer (List ℕ) → Tls K C
stored s (moved bs) =
    let b = s.rxb in
    record s {
      rxb = record b {
        buffer = write_at b.bufate bs b.buffer;
        bufoff = (b.bufoff + length bs) % size_t;
      };
    }
stored s (zero_with e) = s
stored s (negative_with e) = s

-- SSL_read into the buffer at `bufate`.
unfoldable pub rxbuffer_ssl : {K C : Type 0} → Host K C → Tls K C → Tls K C × Transfer (List ℕ)
rxbuffer_ssl h s =
    let r = h.ssl_read s.ssl (minus s.rxb.buftot s.rxb.bufoff) in
    (stored (record s { ssl = r.0 }) r.1, r.1)

-- `if(sc->rxfxn(fd,&sc->rxb,sc)) goto err;`, with the rest of the loop.
abbrev pub deliver : {K C : Type 0} → Host K C → Tls K C → (Tls K C → Outcome K C) → Outcome K C
deliver h s k =
    let r = h.rx s.client (rxbuffer_valid s.rxb) in
    let s' = record s { client = r.client; rxb = rxbuffer_advance r.released s.rxb } in
    let rest = k s' in if s.rxfxn then (if r.stops then drop_conn s' else rest) else crash

-- After the loop of ssl_rxfxn.
abbrev pub read_ended : {K C : Type 0} → Host K C → ℕ → SslError → Tls K C → Outcome K C
read_ended h fd want_write s =
    redirect fd none (some ssl_txrxfxn_at) s (rearm h.kernel fd (events_of true true))
read_ended h fd want_read s = rearm h.kernel fd (events_of true false) s
read_ended h fd other_error s = drop_conn s

-- Its body, with the test `>= 0`.
abbrev pub read_round :
    {K C : Type 0}
    → (Tls K C → Outcome K C)
    → Host K C
    → ℕ
    → Tls K C × Transfer (List ℕ)
    → Outcome K C
read_round again h fd (s, moved bs) = deliver h s again
read_round again h fd (s, zero_with e) = deliver h s again
read_round again h fd (s, negative_with e) = read_ended h fd e s

unfoldable pub ssl_rxfxn : {K C : Type 0} → ℕ → Host K C → ℕ → Tls K C → Outcome K C
unfolding rxbuffer_ssl
ssl_rxfxn zero h fd s = out_of_fuel
ssl_rxfxn (suc fuel) h fd s = read_round (λ s'. ssl_rxfxn fuel h fd s') h fd (rxbuffer_ssl h s)

-- After the loop of ssl_txrxfxn.
abbrev pub write_read_ended : {K C : Type 0} → Host K C → ℕ → SslError → Tls K C → Outcome K C
write_read_ended h fd want_read s =
    redirect fd (some ssl_rxfxn_at) none s (rearm h.kernel fd (events_of true false))
write_read_ended h fd want_write s = rearm h.kernel fd (events_of true true) s
write_read_ended h fd other_error s = drop_conn s

-- Its body, with the test `> 0`.
abbrev pub write_read_round :
    {K C : Type 0}
    → (Tls K C → Outcome K C)
    → Host K C
    → ℕ
    → Tls K C × Transfer (List ℕ)
    → Outcome K C
write_read_round again h fd (s, moved bs) = deliver h s again
write_read_round again h fd (s, zero_with e) = write_read_ended h fd e s
write_read_round again h fd (s, negative_with e) = write_read_ended h fd e s

unfoldable pub ssl_txrxfxn : {K C : Type 0} → ℕ → Host K C → ℕ → Tls K C → Outcome K C
unfolding rxbuffer_ssl
ssl_txrxfxn zero h fd s = out_of_fuel
ssl_txrxfxn (suc fuel) h fd s =
    write_read_round (λ s'. ssl_txrxfxn fuel h fd s') h fd (rxbuffer_ssl h s)

unfoldable pub ssl_txfxn : {K C : Type 0} → Host K C → ℕ → Tls K C → Outcome K C
ssl_txfxn h fd s =
    let r = h.tx s.client (rxbuffer_valid s.rxb) in
    let s' = record s { client = r.client; rxb = rxbuffer_advance r.released s.rxb } in
    if s.txfxn then (if r.stops then drop_conn s' else kept s') else drop_conn s
