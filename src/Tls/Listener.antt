-- ===== src/Tls/Listener.antt =====
-- protos/ssl.c and torque.c: the sockets that TLS connections are accepted from.
pub mod Balance
pub mod Served
pub mod Owned
use libtorque.Base.{
  ℕ, zero, suc, ◌+◌, ◌-◌, Bool, true, false, not, List, [], ◌∷◌, Option, none, some, Run, ok, err,
  fault, ◌>>=◌, if◌then◌else◌,
}
use libtorque.Errors.{TorqueErr, resource}
use libtorque.Events.Sources.{World}
use libtorque.Events.Wait.{Kernel}
use libtorque.Events.Dispatch.{restorefd}
use libtorque.Events.Timer.{Process, Reply, success, refused, syscall, minus_one, crash}
use libtorque.Api.{torque_addfd_unbuffered}
use libtorque.Tls.{
  SslError, want_read, want_write, other_error, Accepted, established, failing, ssl_rxfxn_at,
  ssl_txfxn_at, accept_contrxfxn_at, accept_conttxfxn_at, fxn_if, events_of,
}

-- The process, with the number of objects of SSL_new.
pub record Server : Type 0 where
  pub process : Process
  pub ssls : ℕ

abbrev pub change : (Process → Process) → Server → Server
change f s = record s { process = f s.process }

-- A block and the pages of a buffer, taken and given back.
abbrev pub block_and_pages : Process → Process
block_and_pages p = record p { heap = p.heap + 1; pages = p.pages + 1 }

abbrev pub without_block_and_pages : Process → Process
without_block_and_pages p = record p { heap = p.heap - 1; pages = p.pages - 1 }

abbrev pub without_block : Process → Process
without_block p = record p { heap = p.heap - 1 }

abbrev pub one_page_more : Process → Process
one_page_more p = record p { pages = p.pages + 1 }

-- create_ssl_cbstate, by what malloc returns and whether get_big_page finds pages.
abbrev pub create_ssl_cbstate : Option ℕ → Bool → Option ℕ
create_ssl_cbstate none pages_found = none
create_ssl_cbstate (some state) pages_found = if pages_found then some state else none

-- free_ssl_cbstate with an SSL object, and without the pages where `rxb.buffer` is NULL.
abbrev pub free_state : Server → Server
free_state s = record (change without_block_and_pages s) { ssls = s.ssls - 1 }

abbrev pub free_unbuffered : Server → Server
free_unbuffered s = record (change without_block s) { ssls = s.ssls - 1 }

-- What the calls of ssl_accept_internal meet: malloc and get_big_page for the state, SSL_new,
-- SSL_set_fd, SSL_accept, and get_big_page once more.
pub record Meets : Type 0 where
  pub block : Option ℕ
  pub pages_found : Bool
  pub ssl_new_works : Bool
  pub set_fd_works : Bool
  pub accepted : Accepted
  pub more_pages_found : Bool

-- The client's callbacks, as far as they are not NULL.
pub record Listening : Type 0 where
  pub kernel : Kernel
  pub rxfxn : Bool
  pub txfxn : Bool

abbrev pub added : Server → Reply → Run Server
added s (success p) = ok (record s { process = p })
added s (refused e p) = err (free_state (record s { process = p }))
added s (syscall e p) = err (free_state (record s { process = p }))
added s (minus_one p) = err (free_state (record s { process = p }))
added s crash = fault

abbrev pub add_conn : Listening → ℕ → Option ℕ → Option ℕ → ℕ → Server → Run Server
add_conn l sd rx tx state s =
    added s (torque_addfd_unbuffered l.kernel (some sd) rx tx state s.process)

abbrev pub after_accept : Listening → Bool → ℕ → ℕ → Accepted → Server → Run Server
after_accept l more_pages sd state established s =
    if not more_pages
    then err (free_unbuffered s)
    else add_conn l sd (fxn_if l.rxfxn ssl_rxfxn_at) (fxn_if l.txfxn ssl_txfxn_at) state
        (change one_page_more s)
after_accept l more_pages sd state (failing want_write) s =
    add_conn l sd none (some accept_conttxfxn_at) state s
after_accept l more_pages sd state (failing want_read) s =
    add_conn l sd (some accept_contrxfxn_at) none state s
after_accept l more_pages sd state (failing other_error) s = err (free_state s)

abbrev pub with_cbstate : Listening → Meets → ℕ → Option ℕ → Server → Run Server
with_cbstate l m sd none s = err s
with_cbstate l m sd (some state) s =
    let s1 = change block_and_pages s in
    let s2 = record s1 { ssls = s1.ssls + 1 } in
    if not m.ssl_new_works
    then err (change without_block_and_pages s1)
    else if not m.set_fd_works
    then err (free_state s2)
    else after_accept l m.more_pages_found sd state m.accepted s2

unfoldable pub ssl_accept_internal : Listening → Meets → ℕ → Server → Run Server
ssl_accept_internal l m sd s = with_cbstate l m sd (create_ssl_cbstate m.block m.pages_found) s

-- One return of accept: EINTR, or a descriptor, with whether both calls of fcntl work on it and what
-- ssl_accept_internal meets.
pub data Incoming : Type 0 where
  interrupted : Incoming
  incoming : (sd : ℕ) (fcntl_works : Bool) → Meets → Incoming

abbrev pub opened_conn : Server → Server
opened_conn s = change (λ p. record p { fds = p.fds + 1 }) s

abbrev pub close_conn : Server → Server
close_conn s = change (λ p. record p { fds = p.fds - 1 }) s

abbrev pub closed_on_error : Run Server → Run Server
closed_on_error (ok s) = ok s
closed_on_error (err s) = ok (close_conn s)
closed_on_error Run.fault = fault
closed_on_error Run.out_of_fuel = Run.out_of_fuel

abbrev pub accept_one : Listening → Incoming → Server → Run Server
accept_one l interrupted s = ok s
accept_one l (incoming sd fcntl_works m) s =
    if not fcntl_works
    then ok (close_conn (opened_conn s))
    else closed_on_error (ssl_accept_internal l m sd (opened_conn s))

-- Whether restorefd works is not looked at.
abbrev pub restored_anyway : Server → Run World → Run Server
restored_anyway s (ok w) = ok (change (λ p. record p { world = w }) s)
restored_anyway s (err w) = ok (change (λ p. record p { world = w }) s)
restored_anyway s Run.fault = fault
restored_anyway s Run.out_of_fuel = Run.out_of_fuel

-- By the returns of accept up to the first error other than EINTR, which ends it.
unfoldable pub ssl_accept_rxfxn : Listening → ℕ → List Incoming → Server → Run Server
ssl_accept_rxfxn l fd [] s =
    restored_anyway s (restorefd l.kernel s.process.world fd (events_of true false))
ssl_accept_rxfxn l fd (i ∷ is) s = accept_one l i s >>= (λ s'. ssl_accept_rxfxn l fd is s')

-- The address of ssl_accept_rxfxn.
abbrev pub ssl_accept_rxfxn_at : ℕ
ssl_accept_rxfxn_at = 6

-- torque.c. Whatever the registration returns, it is TORQUE_ERR_RESOURCE; SSL_free(NULL) is no call.
abbrev pub ssl_added : Reply → Reply
ssl_added (success p) = success p
ssl_added (refused e p) = refused resource (without_block_and_pages p)
ssl_added (syscall e p) = refused resource (without_block_and_pages p)
ssl_added (minus_one p) = refused resource (without_block_and_pages p)
ssl_added crash = crash

abbrev pub with_listener : Kernel → Option ℕ → Option ℕ → Process → Reply
with_listener kernel none fd p = refused resource p
with_listener kernel (some state) fd p =
    ssl_added
      (torque_addfd_unbuffered kernel fd (some ssl_accept_rxfxn_at) none state (block_and_pages p))

unfoldable pub torque_addssl : Kernel → Option ℕ → Bool → Option ℕ → Process → Reply
torque_addssl kernel block pages_found fd p =
    with_listener kernel (create_ssl_cbstate block pages_found) fd p
