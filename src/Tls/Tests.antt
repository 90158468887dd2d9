-- ===== src/Tls/Tests.antt =====
-- The theorems on TLS at concrete inputs: a connection on descriptor 1 with one byte to come.
use libtorque.Base.{
  ℕ, zero, suc, ◌≡◌, refl, true, false, List, [], ◌∷◌, Option, none, some, length, arith, inl, ltb,
}
use libtorque.Events.Sources.{EvSource, unset}
use libtorque.Events.Timer.{Process}
use libtorque.Tls.{
  want_read, want_write, other_error, Accepted, established, failing, Transfer, moved, zero_with,
  negative_with, Host, Tls, crash, out_of_fuel, ssl_rxfxn_at, ssl_txfxn_at, accept_contrxfxn_at,
  accept_conttxfxn_at, drop_conn, events_of, accept_contrxfxn, accept_conttxfxn,
}
use libtorque.Tls.Reading.{rxbuffer_ssl, ssl_rxfxn, ssl_txrxfxn}
use libtorque.Tls.Between.{Rearms, IsOwned}
use libtorque.Tls.Accepting.{Stalls, accept_contrxfxn-Rearms, accept_conttxfxn-Stalls}
use libtorque.Tls.Ended.{ssl_rxfxn_spins}
use libtorque.Tls.Dispatched.{tls_event, tls_event_crashes}
use libtorque.Tls.Listener.{Server, Listening, Incoming, interrupted, incoming, ssl_accept_rxfxn}
use libtorque.Tls.Listener.Served.{Accepts, ssl_accept_rxfxn-Accepts}
use libtorque.Tls.Library.{Answers, no_locks, torque_init_ssl}
use libtorque.Tls.Library.Locks.{Stops, torque_init_ssl-Stops}
use libtorque.Tls.Credentials.{Openssl, filled, torque_ssl_ctx}
use libtorque.Tls.Credentials.Serving.{Serves, torque_ssl_ctx-Serves}

-- OpenSSL by the number of bytes that are to come.
abbrev reads_of : ℕ → ℕ → ℕ × Transfer (List ℕ)
reads_of zero n = (0, negative_with want_read)
reads_of (suc k) n = (k, moved (7 ∷ []))

abbrev host : Accepted → Host ℕ (Unit {0})
host a = record {
  ssl_accept = λ k. (k, a);
  ssl_read = reads_of;
  rx = λ c bs. record { client = c; released = length bs; stops = false };
  tx = λ c bs. record { client = c; released = 0; stops = false };
  kernel = λ asked r. true;
  pages = some (0 ∷ 0 ∷ []);
}

abbrev process_with : EvSource → Process
process_with src = record {
  world = record {
    tables = record { fdarray = unset ∷ src ∷ []; sigarray = [] };
    asked = [];
    calls = [];
  };
  heap = 1;
  pages = 1;
  fds = 1;
}

abbrev source_of : Option ℕ → Option ℕ → EvSource
source_of rx tx = record { rxfxn = rx; txfxn = tx; cbstate = 9 }

abbrev conn_with : EvSource → Tls ℕ (Unit {0})
conn_with src = record {
  process = process_with src;
  ssls = 1;
  ssl = 1;
  client = tt;
  rxfxn = true;
  txfxn = true;
  rxb = record { buffer = 0 ∷ 0 ∷ []; buftot = 2; bufoff = 0; bufate = 0 };
  buffered = true;
}

conn_with-IsOwned : (src : EvSource) → IsOwned (conn_with src)
conn_with-IsOwned src = record {
  heap = omega arith;
  fds = omega arith;
  ssls = omega arith;
  pages = omega arith;
  is_buffered = refl;
}

abbrev reading : EvSource
reading = source_of (some accept_contrxfxn_at) none

accept_contrxfxn-Rearms_example :
    Rearms 1 1 (conn_with reading) (accept_contrxfxn (host established) 1 (conn_with reading))
accept_contrxfxn-Rearms_example =
    accept_contrxfxn-Rearms (host established) 1 (conn_with reading) (conn_with-IsOwned reading)
      (reading, refl, refl) refl

abbrev writing : EvSource
writing = source_of none (some accept_conttxfxn_at)

accept_conttxfxn-Stalls_example :
    Stalls 0
      (conn_with writing)
      (accept_conttxfxn (host (failing want_write)) 1 (conn_with writing))
accept_conttxfxn-Stalls_example =
    accept_conttxfxn-Stalls (host (failing want_write)) 1 (conn_with writing)
      (conn_with-IsOwned writing) (writing, refl)

abbrev both : EvSource
both = source_of (some ssl_rxfxn_at) (some ssl_txfxn_at)

-- OpenSSL once the peer has closed the connection.
abbrev ended : Transfer (List ℕ) → Host ℕ (Unit {0})
ended t = record (host established) { ssl_read = λ k n. (k, t) }

ssl_rxfxn_spins_example :
    (ssl_rxfxn 5 (ended (zero_with other_error)) 1 (conn_with both) ≡ out_of_fuel)
    × (ssl_txrxfxn 6 (ended (zero_with other_error)) 1 (conn_with both)
        ≡ drop_conn (conn_with both))
ssl_rxfxn_spins_example =
    ssl_rxfxn_spins (ended (zero_with other_error)) 1 5 (conn_with both) (λ n. refl) (λ c bs. refl)
      refl

tls_event_crashes_example :
    tls_event 1 (ended (negative_with other_error)) 1 (events_of true true) (conn_with both) ≡ crash
unfolding rxbuffer_ssl
tls_event_crashes_example =
    tls_event_crashes (ended (negative_with other_error)) 1 0 (events_of true true) (conn_with both)
      refl refl (9, refl) refl (inl refl)

abbrev listening : Listening
listening = record { kernel = λ asked r. true; rxfxn = true; txfxn = false }

abbrev server : Server
server = record { process = process_with unset; ssls = 0 }

abbrev arrivals : List Incoming
arrivals =
    interrupted
    ∷ incoming 1 true (record {
      block = some 5;
      pages_found = true;
      ssl_new_works = true;
      set_fd_works = true;
      accepted = established;
      more_pages_found = true;
    })
    ∷ []

ssl_accept_rxfxn-Accepts_example :
    Accepts 0 arrivals server (ssl_accept_rxfxn listening 0 arrivals server)
ssl_accept_rxfxn-Accepts_example = ssl_accept_rxfxn-Accepts listening 0 arrivals server

-- The third of three locks cannot be initialized.
abbrev two_of_three : Answers
two_of_three = record {
  library_init_works = true;
  rand_status_works = true;
  num_locks = some 3;
  locks_malloc = true;
  mutex_init = λ z. ltb z 2;
}

torque_init_ssl-Stops_example : Stops two_of_three (torque_init_ssl two_of_three no_locks)
torque_init_ssl-Stops_example = torque_init_ssl-Stops two_of_three

abbrev openssl : Openssl
openssl = record {
  new_works = true;
  no_sslv2_set = true;
  rand_bytes = filled;
  session_id_works = true;
  load_ca = λ file. true;
  use_key = λ file type. true;
  use_chain = λ file. true;
}

torque_ssl_ctx-Serves_example :
    Serves openssl
      (some 1)
      (some 2)
      none
      true
      0
      (torque_ssl_ctx openssl (some 1) (some 2) none true 0)
torque_ssl_ctx-Serves_example = torque_ssl_ctx-Serves openssl (some 1) (some 2) none true 0
