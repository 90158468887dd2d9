-- ===== src/Tls/Listener/Served.antt =====
-- protos/ssl.c and torque.c: what the library holds after ssl_accept_rxfxn.
use libtorque.Base.{
  ◌&&◌, ℕ, suc, ◌+◌, ◌≤◌, ◌≡◌, refl, Bool, true, false, List, [], ◌∷◌, ◌++◌, Run, ok, err, arith,
}
use libtorque.Events.Sources.{Request, epoll_ctl_mod}
use libtorque.Events.Wait.{kevent_change, make_changes}
use libtorque.Events.Dispatch.{restorefd, result}
use libtorque.Tls.{events_of}
use libtorque.Tls.Accepting.{lost}
use libtorque.Tls.Listener.{
  Server, Listening, Incoming, interrupted, incoming, ssl_accept_internal, closed_on_error,
  accept_one, opened_conn, restored_anyway, ssl_accept_rxfxn,
}
use libtorque.Tls.Listener.Balance.{Grown, Joins, ssl_accept_internal-Joins}

-- How many connections come, and how many pages their handshakes can lose.
abbrev pub coming : List Incoming → ℕ
coming [] = 0
coming (interrupted ∷ is) = coming is
coming (incoming sd works m ∷ is) = suc (coming is)

abbrev pub at_once : List Incoming → ℕ
at_once [] = 0
at_once (interrupted ∷ is) = at_once is
at_once (incoming sd works m ∷ is) = lost m.accepted + at_once is

-- One more connection with its descriptor for each that is kept.
abbrev pub Served : Server → (n m : ℕ) → Server → Type 0
Served s n m s' = Grown s n m s' × (s'.process.fds ≡ s.process.fds + n)

-- The last request is for reading from the listening descriptor.
abbrev pub Listens : ℕ → Server → Type 0
Listens fd s =
    (old : List Request) × (s.process.world.asked
      ≡ old
        ++ (epoll_ctl_mod (record {
          fd = fd;
          events = record (events_of true false) { epolloneshot = true; epollet = true };
        })
            ∷ []))

-- How ssl_accept_rxfxn ends: with at most the connections that came.
abbrev pub Accepts : ℕ → List Incoming → Server → Run Server → Type 0
Accepts fd is s (ok s') =
    (n m : ℕ) × (n ≤ coming is) × (m ≤ at_once is) × Served s n m s' × Listens fd s'
Accepts fd is s (err s') = ⊥
Accepts fd is s Run.fault = ⊥
Accepts fd is s Run.out_of_fuel = ⊥

accept_one-Served :
    (l : Listening) (i : Incoming) (s : Server)
    → (s' : Server) × (n m : ℕ) × (accept_one l i s ≡ ok s')
      × (n ≤ coming (i ∷ []))
      × (m ≤ at_once (i ∷ []))
      × Served s n m s'
accept_one-Served l interrupted s = (
  s,
  0,
  0,
  refl,
  omega arith,
  omega arith,
  ((omega arith, omega arith, omega arith), omega arith),
)
accept_one-Served l (incoming sd false m) s = (
  _,
  0,
  0,
  refl,
  omega arith,
  omega arith,
  ((omega arith, omega arith, omega arith), omega arith),
)
accept_one-Served l (incoming sd true m) s =
    by_result (ssl_accept_internal l m sd (opened_conn s))
      (ssl_accept_internal-Joins l m sd (opened_conn s))
  where
    by_result :
        (r : Run Server)
        → Joins m.accepted (opened_conn s) r
        → (s' : Server) × (n k : ℕ) × (closed_on_error r ≡ ok s')
          × (n ≤ 1)
          × (k ≤ lost m.accepted + 0)
          × Served s n k s'
    by_result (ok s') (g, f) = (
      s',
      1,
      lost m.accepted,
      refl,
      omega arith,
      omega arith,
      ((g.0, g.1, g.2), omega (arith, f)),
    )
    by_result (err s') (k, le, g, f) =
        (_, 0, k, refl, omega arith, omega (arith, le), ((g.0, g.1, g.2), omega (arith, f)))
    by_result Run.fault h = absurd h
    by_result Run.out_of_fuel h = absurd h

-- Whatever connections come, ssl_accept_rxfxn returns and has asked for the events of its own
-- descriptor last. Each connection that it keeps has one descriptor, one block, one SSL object and one
-- buffer, and the others are closed with all of theirs given back, but for one buffer's pages at most
-- for each handshake that is done at once.
pub ssl_accept_rxfxn-Accepts :
    (l : Listening) (fd : ℕ) (is : List Incoming) (s : Server)
    → Accepts fd is s (ssl_accept_rxfxn l fd is s)
unfolding ssl_accept_rxfxn restorefd kevent_change make_changes
ssl_accept_rxfxn-Accepts l fd [] s = by_answer (l.kernel s.process.world.asked request)
  where
    request : Request
    request = epoll_ctl_mod (record {
      fd = fd;
      events = record (events_of true false) { epolloneshot = true; epollet = true };
    })

    by_answer :
        (works : Bool)
        → Accepts fd [] s (
            restored_anyway s (
              result (
                record (s.process.world) { asked = s.process.world.asked ++ (request ∷ []) },
                works && true,
              )))
    by_answer true = (
      0,
      0,
      omega arith,
      omega arith,
      ((omega arith, omega arith, omega arith), omega arith),
      (s.process.world.asked, refl),
    )
    by_answer false = (
      0,
      0,
      omega arith,
      omega arith,
      ((omega arith, omega arith, omega arith), omega arith),
      (s.process.world.asked, refl),
    )
ssl_accept_rxfxn-Accepts l fd (i ∷ is) s =
    let (s', n, m, e, ln, lm, g) = accept_one-Served l i s in
    rw (e)
      (later s' n m ln lm g (ssl_accept_rxfxn l fd is s') (ssl_accept_rxfxn-Accepts l fd is s'))
  where
    coming_split : (j : Incoming) → coming (j ∷ is) ≡ coming (j ∷ []) + coming is
    coming_split interrupted = omega arith
    coming_split (incoming sd works m) = omega arith

    at_once_split : (j : Incoming) → at_once (j ∷ is) ≡ at_once (j ∷ []) + at_once is
    at_once_split interrupted = omega arith
    at_once_split (incoming sd works m) = omega arith

    later :
        (s' : Server) (n m : ℕ)
        → n ≤ coming (i ∷ [])
        → m ≤ at_once (i ∷ [])
        → Served s n m s'
        → (r : Run Server) → Accepts fd is s' r
        → Accepts fd (i ∷ is) s r
    later s' n m ln lm (g, f) (ok s2) (n', m', ln', lm', (g', f'), listens) = (
      n + n',
      m + m',
      omega (arith, ln, ln', coming_split i),
      omega (arith, lm, lm', at_once_split i),
      (
        (omega (arith, g.0, g'.0), omega (arith, g.1, g'.1), omega (arith, g.2, g'.2)),
        omega (arith, f, f'),
      ),
      listens,
    )
    later s' n m ln lm g (err s2) h = absurd h
    later s' n m ln lm g Run.fault h = absurd h
    later s' n m ln lm g Run.out_of_fuel h = absurd h
