-- ===== src/Tls/Ended.antt =====
-- protos/ssl.c: what the reading callbacks do once the peer has closed the connection.
use libtorque.Base.{
  ℕ, zero, suc, ◌≡◌, refl, sym, ◌∙◌, subst, Bool, true, false, List, if◌then◌else◌,
}
use libtorque.Buffers.{rxbuffer_valid, rxbuffer_advance}
use libtorque.Tls.{
  SslError, other_error, zero_with, Host, Tls, Outcome, crash, out_of_fuel, drop_conn,
}
use libtorque.Tls.Reading.{rxbuffer_ssl, deliver, ssl_rxfxn, ssl_txrxfxn}

-- OpenSSL at the end of a connection: reads return 0, and change nothing.
abbrev pub AtEnd : {K C : Type 0} → Host K C → K → SslError → Type 0
AtEnd h k e = (n : ℕ) → h.ssl_read k n ≡ (k, zero_with e)

deliver_on :
    {K C : Type 0} (h : Host K C) (s : Tls K C) (k : Tls K C → Outcome K C)
    → s.rxfxn ≡ true
    → (h.rx s.client (rxbuffer_valid s.rxb)).stops ≡ false
    → deliver h s k
      ≡ k (record s {
        client = (h.rx s.client (rxbuffer_valid s.rxb)).client;
        rxb = rxbuffer_advance (h.rx s.client (rxbuffer_valid s.rxb)).released s.rxb;
      })
deliver_on h s k reads goes_on =
    let r = h.rx s.client (rxbuffer_valid s.rxb) in
    let s' = record s { client = r.client; rxb = rxbuffer_advance r.released s.rxb } in
    subst (λ (c : Bool). (if c then (if r.stops then drop_conn s' else k s') else crash) ≡ k s')
      (sym reads)
      (subst (λ (b : Bool). (if b then drop_conn s' else k s') ≡ k s') (sym goes_on) refl)

-- Where the peer has closed the connection and the client does not stop, ssl_rxfxn never returns, but
-- ssl_txrxfxn frees the state and closes the descriptor.
pub ssl_rxfxn_spins :
    {K C : Type 0} (h : Host K C) (fd fuel : ℕ) (s : Tls K C)
    → AtEnd h s.ssl other_error
    → ((c : C) (bs : List ℕ) → (h.rx c bs).stops ≡ false)
    → s.rxfxn ≡ true
    → (ssl_rxfxn fuel h fd s ≡ out_of_fuel) × (ssl_txrxfxn (suc fuel) h fd s ≡ drop_conn s)
unfolding ssl_rxfxn ssl_txrxfxn rxbuffer_ssl
ssl_rxfxn_spins h fd zero s ended goes_on reads = (refl, rw (ended _) refl)
ssl_rxfxn_spins h fd (suc fuel) s ended goes_on reads =
    let r = h.rx s.client (rxbuffer_valid s.rxb) in
    let s' = record s { client = r.client; rxb = rxbuffer_advance r.released s.rxb } in
    (
      rw (ended _) (
          deliver_on h s (λ t. ssl_rxfxn fuel h fd t) reads
            (goes_on s.client (rxbuffer_valid s.rxb))
          ∙ (ssl_rxfxn_spins h fd fuel s' ended goes_on reads).0),
      rw (ended _) refl,
    )
