-- ===== src/Tls/Accepting.antt =====
-- protos/ssl.c: the two callbacks that go on with a handshake.
use libtorque.Base.{ℕ, ◌≡◌, refl, Bool, true, false, ◌||◌, none, some, get_elem?, arith}
use libtorque.Events.Sources.{EvSource}
use libtorque.Tls.{
  want_read, want_write, other_error, Accepted, established, failing, Host, Tls, Outcome, kept,
  dropped, crash, out_of_fuel, ssl_rxfxn_at, ssl_txfxn_at, accept_contrxfxn_at, accept_conttxfxn_at,
  events_of, fxn_if, continue_reading, accept_contrxfxn, continue_writing, accept_conttxfxn,
}
use libtorque.Tls.Between.{
  Heard, IsOwned, Holds, GivesBack, Rearms, Between, drop_conn-Rearms, rearm-Rearms,
  redirect-Rearms, begin_transfer-Rearms,
}

-- The pages that a handshake loses when it is done.
abbrev pub lost : Accepted → ℕ
lost established = 1
lost (failing e) = 0

-- The descriptor's entry while the handshake waits for data to read, or to be able to write.
abbrev pub AwaitsReading : {K C : Type 0} → ℕ → Tls K C → Type 0
AwaitsReading fd s =
    (src : EvSource) × (get_elem? s.process.world.tables.fdarray fd ≡ some src)
    × (src.rxfxn ≡ some accept_contrxfxn_at)

abbrev pub HasEntry : {K C : Type 0} → ℕ → Tls K C → Type 0
HasEntry fd s = (src : EvSource) × (get_elem? s.process.world.tables.fdarray fd ≡ some src)

-- How accept_conttxfxn ends: without any request of the kernel.
abbrev pub Stalls : {K C : Type 0} → ℕ → Tls K C → Outcome K C → Type 0
Stalls n before (kept s) = Holds before n s × (s.process.world.asked ≡ before.process.world.asked)
Stalls n before (dropped s) = GivesBack before n s
Stalls n before crash = ⊥
Stalls n before out_of_fuel = ⊥

module _ {K C : Type 0} (h : Host K C) (fd : ℕ) (before : Tls K C) (owned : IsOwned before) where
  established_Heard :
      (rx tx : Bool) (src : EvSource)
      → (rx || tx) ≡ true
      → Heard
          (events_of rx tx)
          (record src { rxfxn = fxn_if rx ssl_rxfxn_at; txfxn = fxn_if tx ssl_txfxn_at })
  established_Heard true tx src some_callback = refl
  established_Heard false true src some_callback = refl
  established_Heard false false src some_callback = cc

  continue_reading-Rearms :
      (a : Accepted) (src : EvSource) (s : Tls K C)
      → (s.rxfxn || s.txfxn) ≡ true
      → src.rxfxn ≡ some accept_contrxfxn_at
      → Between h fd before owned 0 src s
      → Rearms fd (lost a) before (continue_reading h fd a s)
  continue_reading-Rearms established src s callbacks waits b =
      begin_transfer-Rearms h fd before owned src s _ (Rearms fd 1 before) b (λ s' g. g)
        (λ s' b'.
          rearm-Rearms h fd before owned 1 _ _ s' (established_Heard s.rxfxn s.txfxn src callbacks)
            b')
  continue_reading-Rearms (failing want_write) src s callbacks waits b =
      redirect-Rearms h fd before owned 0 src none (some accept_conttxfxn_at) s _
        (Rearms fd 0 before) b (λ s' b'. rearm-Rearms h fd before owned 0 _ _ s' refl b')
  continue_reading-Rearms (failing want_read) src s callbacks waits b =
      rearm-Rearms h fd before owned 0 src _ s (rw (waits) refl) b
  continue_reading-Rearms (failing other_error) src s callbacks waits b =
      drop_conn-Rearms h fd before owned 0 s b.holds b.is_buffered

  continue_writing-Stalls :
      (a : Accepted) (src : EvSource) (s : Tls K C)
      → Between h fd before owned 0 src s
      → Stalls (lost a) before (continue_writing h fd a s)
  continue_writing-Stalls established src s b =
      begin_transfer-Rearms h fd before owned src s _ (Stalls 1 before) b (λ s' g. g)
        (λ s' b'. (b'.holds, b'.asked))
  continue_writing-Stalls (failing want_write) src s b = (b.holds, b.asked)
  continue_writing-Stalls (failing want_read) src s b =
      redirect-Rearms h fd before owned 0 src (some accept_contrxfxn_at) none s _ (Stalls 0 before)
        b (λ s' b'. (b'.holds, b'.asked))
  continue_writing-Stalls (failing other_error) src s b =
      drop_conn-Rearms h fd before owned 0 s b.holds b.is_buffered

module _ {K C : Type 0} (h : Host K C) (fd : ℕ) (s : Tls K C) (owned : IsOwned s) where
  -- Where the connection goes on, accept_contrxfxn leaves the descriptor armed for an event that its
  -- entry has a callback for; or else the state was freed and the descriptor closed. Once the
  -- handshake is done, the pages of the buffer that there was are lost.
  pub accept_contrxfxn-Rearms :
      AwaitsReading fd s
      → (s.rxfxn || s.txfxn) ≡ true
      → Rearms fd (lost (h.ssl_accept s.ssl).1) s (accept_contrxfxn h fd s)
  unfolding accept_contrxfxn
  accept_contrxfxn-Rearms (src, entry, waits) callbacks =
      continue_reading-Rearms h fd s owned (h.ssl_accept s.ssl).1 src _ callbacks waits (record {
        holds = (refl, refl, refl, omega arith);
        is_buffered = owned.is_buffered;
        asked = refl;
        entry = entry;
      })

  -- accept_conttxfxn never asks the kernel for anything: whatever SSL_accept returns, the descriptor,
  -- which its event has disarmed, stays so, or the state was freed and the descriptor closed.
  pub accept_conttxfxn-Stalls :
      HasEntry fd s → Stalls (lost (h.ssl_accept s.ssl).1) s (accept_conttxfxn h fd s)
  unfolding accept_conttxfxn
  accept_conttxfxn-Stalls (src, entry) =
      continue_writing-Stalls h fd s owned (h.ssl_accept s.ssl).1 src _ (record {
        holds = (refl, refl, refl, omega arith);
        is_buffered = owned.is_buffered;
        asked = refl;
        entry = entry;
      })
