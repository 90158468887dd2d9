-- ===== src/Tls/Transfers.antt =====
-- protos/ssl.c: the two callbacks that read from a connection.
use libtorque.Base.{
  ℕ, zero, suc, ◌<◌, ◌≡◌, refl, sym, subst, Bool, true, false, ◌||◌, List, none, some, get_elem?,
  arith, if_cases, if◌then◌else◌,
}
use libtorque.Events.Sources.{EvSource}
use libtorque.Events.Dispatch.{is_some}
use libtorque.Buffers.{rxbuffer_valid, rxbuffer_advance}
use libtorque.Tls.{
  SslError, want_read, want_write, other_error, Transfer, moved, zero_with, negative_with, Host,
  Tls, Outcome, crash, ssl_rxfxn_at, ssl_txrxfxn_at, drop_conn,
}
use libtorque.Tls.Reading.{
  stored, rxbuffer_ssl, deliver, write_read_ended, write_read_round, ssl_txrxfxn,
}
use libtorque.Tls.Between.{
  IsOwned, Rearms, Between, drop_conn-Rearms, rearm-Rearms, redirect-Rearms,
}

-- What a read does to a measure of OpenSSL's state: it falls where SSL_read moves bytes, and where it
-- returns 0 the measure before and after are as `on_zero` says.
abbrev pub Falls : {K : Type 0} → (K → ℕ) → (ℕ → ℕ → Type 0) → ℕ → K × Transfer (List ℕ) → Type 0
Falls size on_zero left (k, moved bs) = size k < left
Falls size on_zero left (k, zero_with e) = on_zero (size k) left
Falls size on_zero left (k, negative_with e) = Unit

abbrev pub IsFinite : {K C : Type 0} → Host K C → (K → ℕ) → (ℕ → ℕ → Type 0) → Type 0
IsFinite {K} h size on_zero = (k : K) (n : ℕ) → Falls size on_zero (size k) (h.ssl_read k n)

-- A return of 0 counts as a read, or it does not matter.
abbrev pub Counts : ℕ → ℕ → Type 0
Counts after left = after < left

abbrev pub Anything : ℕ → ℕ → Type 0
Anything after left = Unit

-- The entry of a descriptor whose events ssl_rxfxn takes.
abbrev pub ReadsTls : {K C : Type 0} → ℕ → Tls K C → Type 0
ReadsTls fd s =
    (src : EvSource) × (get_elem? s.process.world.tables.fdarray fd ≡ some src)
    × (src.rxfxn ≡ some ssl_rxfxn_at)

-- The entry of one whose events ssl_txrxfxn takes.
abbrev pub WritesToRead : {K C : Type 0} → ℕ → Tls K C → Type 0
WritesToRead fd s =
    (src : EvSource) × (get_elem? s.process.world.tables.fdarray fd ≡ some src)
    × (src.txfxn ≡ some ssl_txrxfxn_at)

module _ {K C : Type 0} (h : Host K C) (fd : ℕ) (before : Tls K C) (owned : IsOwned before) where
  -- A connection in a callback's loop, `s` of which the client reads.
  abbrev InLoop : EvSource → Tls K C → Type 0
  InLoop src s = Between h fd before owned 0 src s × (s.rxfxn ≡ true)

  deliver-Rearms :
      (src : EvSource) (s : Tls K C) (k : Tls K C → Outcome K C)
      → InLoop src s
      → ((s' : Tls K C) → InLoop src s' → s'.ssl ≡ s.ssl → Rearms fd 0 before (k s'))
      → Rearms fd 0 before (deliver h s k)
  deliver-Rearms src s k (b, reads) later =
      let r = h.rx s.client (rxbuffer_valid s.rxb) in
      let s' : Tls K C = record s { client = r.client; rxb = rxbuffer_advance r.released s.rxb } in
      subst
        (λ (c : Bool).
          Rearms fd 0 before (if c then (if r.stops then drop_conn s' else k s') else crash))
        (sym reads)
        (if_cases (Rearms fd 0 before) r.stops (drop_conn s') (k s')
          (λ _. drop_conn-Rearms h fd before owned 0 s' b.holds b.is_buffered)
          (λ _.
            later s'
              (
                record {
                  holds = b.holds;
                  is_buffered = b.is_buffered;
                  asked = b.asked;
                  entry = b.entry;
                },
                reads,
              )
              refl))

  write_read_ended-Rearms :
      (e : SslError) (src : EvSource) (s : Tls K C)
      → src.txfxn ≡ some ssl_txrxfxn_at
      → Between h fd before owned 0 src s
      → Rearms fd 0 before (write_read_ended h fd e s)
  write_read_ended-Rearms want_read src s waits b =
      redirect-Rearms h fd before owned 0 src (some ssl_rxfxn_at) none s _ (Rearms fd 0 before) b
        (λ s' b'. rearm-Rearms h fd before owned 0 _ _ s' refl b')
  write_read_ended-Rearms want_write src s waits b =
      rearm-Rearms h fd before owned 0 src _ s (heard (is_some src.rxfxn)) b
    where
      heard : (r : Bool) → (r || is_some src.txfxn) ≡ true
      heard true = refl
      heard false = rw (waits) refl
  write_read_ended-Rearms other_error src s waits b =
      drop_conn-Rearms h fd before owned 0 s b.holds b.is_buffered

  module _ (size : K → ℕ) where
    write_read_round-Rearms :
        (left : ℕ) (src : EvSource) (s : Tls K C) (r : K × Transfer (List ℕ))
        (again : Tls K C → Outcome K C)
        → src.txfxn ≡ some ssl_txrxfxn_at
        → InLoop src s
        → Falls size Anything left r
        → ((s' : Tls K C) → InLoop src s' → size s'.ssl < left → Rearms fd 0 before (again s'))
        → Rearms fd 0 before
            (write_read_round again h fd (stored (record s { ssl = r.0 }) r.1, r.1))
    write_read_round-Rearms left src s (k, moved bs) again waits (b, reads) falls later =
        deliver-Rearms src (stored (record s { ssl = k }) (moved bs)) again
          (
            record {
              holds = b.holds;
              is_buffered = b.is_buffered;
              asked = b.asked;
              entry = b.entry;
            },
            reads,
          )
          (λ s' l e. later s' l (subst (λ (q : K). size q < left) (sym e) falls))
    write_read_round-Rearms left src s (k, zero_with e) again waits (b, reads) falls later =
        write_read_ended-Rearms e src (record s { ssl = k }) waits
          (record {
            holds = b.holds;
            is_buffered = b.is_buffered;
            asked = b.asked;
            entry = b.entry;
          })
    write_read_round-Rearms left src s (k, negative_with e) again waits (b, reads) falls later =
        write_read_ended-Rearms e src (record s { ssl = k }) waits
          (record {
            holds = b.holds;
            is_buffered = b.is_buffered;
            asked = b.asked;
            entry = b.entry;
          })

    ssl_txrxfxn-InLoop :
        (fuel : ℕ) (src : EvSource) (s : Tls K C)
        → IsFinite h size Anything
        → src.txfxn ≡ some ssl_txrxfxn_at
        → InLoop src s
        → size s.ssl < fuel
        → Rearms fd 0 before (ssl_txrxfxn fuel h fd s)
    unfolding ssl_txrxfxn rxbuffer_ssl
    ssl_txrxfxn-InLoop zero src s finite waits l enough = absurd (omega (arith, enough))
    ssl_txrxfxn-InLoop (suc fuel) src s finite waits l enough =
        write_read_round-Rearms (size s.ssl) src s _ _ waits l (finite s.ssl _) (λ s' l' less.
          ssl_txrxfxn-InLoop fuel src s' finite waits l' (omega (arith, less, enough)))

module _ {K C : Type 0} (h : Host K C) (size : K → ℕ) (fd : ℕ) (s : Tls K C)
    (owned : IsOwned s) where
  -- The same of ssl_txrxfxn, whatever follows a return of 0.
  pub ssl_txrxfxn-Rearms :
      (fuel : ℕ)
      → IsFinite h size Anything
      → size s.ssl < fuel
      → WritesToRead fd s
      → s.rxfxn ≡ true
      → Rearms fd 0 s (ssl_txrxfxn fuel h fd s)
  ssl_txrxfxn-Rearms fuel finite enough (src, entry, waits) reads =
      ssl_txrxfxn-InLoop h fd s owned size fuel src s finite waits
        (
          record {
            holds = (refl, refl, refl, omega arith);
            is_buffered = owned.is_buffered;
            asked = refl;
            entry = entry;
          },
          reads,
        )
        enough
