-- ===== src/Tls.antt =====
-- protos/ssl.c: the callbacks of a TLS connection, which move it between the events that OpenSSL
-- asks for. OpenSSL, the kernel, the page allocator and the client's callbacks are parameters.
pub mod Reading
pub mod Between
pub mod Accepting
pub mod Transfers
pub mod Ended
pub mod Dispatched
pub mod Listener
pub mod Library
pub mod Credentials
mod Tests
use libtorque.Base.{
  ℕ, zero, suc, ◌+◌, ◌-◌, ◌%◌, ◌<◌, Bool, true, false, ◌||◌, List, [], ◌++◌, Option, none, some,
  Run, ok, err, fault, ◌>>=◌, length, get_elem?, if◌then◌else◌,
}
use libtorque.Buffers.{
  RxBuf, size_t, minus, write_at, rxbuffer_valid, rxbuffer_advance, initialize_rxbuffer,
}
use libtorque.Buffers.Callbacks
use libtorque.Events.Sources.{
  EvSource, EvTables, EpollFlags, World, readable, writable, set_evsource_rx, set_evsource_tx,
}
use libtorque.Events.Wait.{Kernel}
use libtorque.Events.Dispatch.{restorefd, with_fdarray}
use libtorque.Events.Signals.{no_flags}
use libtorque.Events.Timer.{Process}

-- SSL_get_error, as far as the library looks at it.
pub data SslError : Type 0 where
  want_read want_write other_error : SslError

-- What SSL_accept returns: 1, or an error.
pub data Accepted : Type 0 where
  established : Accepted
  failing : SslError → Accepted

-- What SSL_read and SSL_write return: the bytes that they read or the number that they wrote, 0, or a
-- negative number, with the error that SSL_get_error then gives.
pub data Transfer (A : Type 0) : Type 0 where
  moved : A → Transfer A
  zero_with negative_with : SslError → Transfer A

-- OpenSSL with a state of its own for the connection, the client's callbacks, the kernel, and the
-- pages that get_big_page finds.
pub record Host (K C : Type 0) : Type 0 where
  pub ssl_accept : K → K × Accepted
  pub ssl_read : K → ℕ → K × Transfer (List ℕ)
  pub rx : C → List ℕ → Callbacks.Reply C
  pub tx : C → List ℕ → Callbacks.Reply C
  pub kernel : Kernel
  pub pages : Option (List ℕ)

-- A connection: `struct ssl_cbstate` with the process around it. `ssls` counts the objects of
-- SSL_new, and `buffered` is whether `rxb.buffer` is not NULL.
pub record Tls (K C : Type 0) : Type 0 where
  pub process : Process
  pub ssls : ℕ
  pub ssl : K
  pub client : C
  pub rxfxn : Bool
  pub txfxn : Bool
  pub rxb : RxBuf
  pub buffered : Bool

-- How a callback ends: the connection goes on, or its state was freed and its descriptor closed.
pub data Outcome (K C : Type 0) : Type 0 where
  kept : Tls K C → Outcome K C
  dropped : Tls K C → Outcome K C
  crash : Outcome K C
  out_of_fuel : Outcome K C

-- Numbers for the addresses of the callbacks.
abbrev pub ssl_rxfxn_at : ℕ
ssl_rxfxn_at = 1

abbrev pub ssl_txrxfxn_at : ℕ
ssl_txrxfxn_at = 2

abbrev pub ssl_txfxn_at : ℕ
ssl_txfxn_at = 3

abbrev pub accept_contrxfxn_at : ℕ
accept_contrxfxn_at = 4

abbrev pub accept_conttxfxn_at : ℕ
accept_conttxfxn_at = 5

abbrev pub count_of : Bool → ℕ
count_of true = 1
count_of false = 0

-- free_ssl_cbstate, of a connection with an SSL object.
abbrev pub free_ssl_cbstate : {K C : Type 0} → Tls K C → Tls K C
free_ssl_cbstate s =
    let p = s.process in
    record s {
      ssls = s.ssls - 1;
      process = record p { heap = p.heap - 1; pages = p.pages - count_of s.buffered };
    }

abbrev pub close_fd : {K C : Type 0} → Tls K C → Tls K C
close_fd s = let p = s.process in record s { process = record p { fds = p.fds - 1 } }

-- From the label `err` on.
abbrev pub drop_conn : {K C : Type 0} → Tls K C → Outcome K C
drop_conn s = dropped (close_fd (free_ssl_cbstate s))

abbrev pub in_world : {K C : Type 0} → Tls K C → World → Tls K C
in_world s w = let p = s.process in record s { process = record p { world = w } }

-- `EVREAD` and `EVWRITE`, as far as they are asked for.
abbrev pub events_of : (read write : Bool) → EpollFlags
events_of read write = record no_flags {
  epollin = read;
  epollpri = read;
  epollrdhup = read;
  epollout = write;
}

abbrev pub restored : {K C : Type 0} → Tls K C → Run World → Outcome K C
restored s (ok w) = kept (in_world s w)
restored s (err w) = drop_conn (in_world s w)
restored s Run.fault = crash
restored s Run.out_of_fuel = out_of_fuel

-- `if(restorefd(...)) goto err;` and the return.
unfoldable pub rearm : {K C : Type 0} → Kernel → ℕ → EpollFlags → Tls K C → Outcome K C
rearm kernel fd flags s = restored s (restorefd kernel s.process.world fd flags)

-- The two calls that replace the callbacks of a descriptor.
unfoldable pub set_callbacks : ℕ → Option ℕ → Option ℕ → World → Run World
set_callbacks fd rx tx w =
    with_fdarray w (set_evsource_rx w.tables.fdarray fd rx >>= (λ evs. set_evsource_tx evs fd tx))

abbrev pub redirected : {K C : Type 0} → Tls K C → Run World → (Tls K C → Outcome K C) → Outcome K C
redirected s (ok w) k = k (in_world s w)
redirected s (err w) k = k (in_world s w)
redirected s Run.fault k = crash
redirected s Run.out_of_fuel k = out_of_fuel

abbrev pub redirect :
    {K C : Type 0} → ℕ → Option ℕ → Option ℕ → Tls K C → (Tls K C → Outcome K C) → Outcome K C
redirect fd rx tx s k = redirected s (set_callbacks fd rx tx s.process.world) k

-- `given ? fxn : NULL`
abbrev pub fxn_if : Bool → ℕ → Option ℕ
fxn_if true fxn = some fxn
fxn_if false fxn = none

-- initialize_rxbuffer, which stores what get_big_page finds, NULL included, over the old pointer.
abbrev pub new_buffer :
    {K C : Type 0} → Option RxBuf → Tls K C → (Tls K C → Outcome K C) → Outcome K C
new_buffer none s k = drop_conn (record s { buffered = false })
new_buffer (some rxb) s k =
    let p = s.process in
    k (record s { rxb = rxb; buffered = true; process = record p { pages = p.pages + 1 } })

abbrev pub with_new_buffer :
    {K C : Type 0} → Option (List ℕ) → Tls K C → (Tls K C → Outcome K C) → Outcome K C
with_new_buffer pages s k = new_buffer (initialize_rxbuffer pages) s k

-- Once the handshake is done, up to the registration of the callbacks.
abbrev pub begin_transfer :
    {K C : Type 0} → Host K C → ℕ → Tls K C → (Tls K C → Outcome K C) → Outcome K C
begin_transfer h fd s k =
    with_new_buffer h.pages s
      (λ s'. redirect fd (fxn_if s.rxfxn ssl_rxfxn_at) (fxn_if s.txfxn ssl_txfxn_at) s' k)

abbrev pub continue_reading : {K C : Type 0} → Host K C → ℕ → Accepted → Tls K C → Outcome K C
continue_reading h fd established s =
    begin_transfer h fd s (rearm h.kernel fd (events_of s.rxfxn s.txfxn))
continue_reading h fd (failing want_write) s =
    redirect fd none (some accept_conttxfxn_at) s (rearm h.kernel fd (events_of false true))
continue_reading h fd (failing want_read) s = rearm h.kernel fd (events_of true false) s
continue_reading h fd (failing other_error) s = drop_conn s

unfoldable pub accept_contrxfxn : {K C : Type 0} → Host K C → ℕ → Tls K C → Outcome K C
accept_contrxfxn h fd s =
    let r = h.ssl_accept s.ssl in continue_reading h fd r.1 (record s { ssl = r.0 })

abbrev pub continue_writing : {K C : Type 0} → Host K C → ℕ → Accepted → Tls K C → Outcome K C
continue_writing h fd established s = begin_transfer h fd s kept
continue_writing h fd (failing want_read) s = redirect fd (some accept_contrxfxn_at) none s kept
continue_writing h fd (failing want_write) s = kept s
continue_writing h fd (failing other_error) s = drop_conn s

unfoldable pub accept_conttxfxn : {K C : Type 0} → Host K C → ℕ → Tls K C → Outcome K C
accept_conttxfxn h fd s =
    let r = h.ssl_accept s.ssl in continue_writing h fd r.1 (record s { ssl = r.0 })
