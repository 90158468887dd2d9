-- ===== src/Events/Sources.antt =====
-- events/sources.h and events/sources.c: what is registered for each file descriptor and signal,
-- and the calls of it. Function pointers and `void *` are numbers, with NULL as `none` for a
-- function.
use libtorque.Base.{
  ℕ, zero, suc, Bool, ◌||◌, List, [], ◌∷◌, ◌++◌, Option, none, some, Run, ok, fault, ◌>>=◌,
  get_elem?, set,
}

-- `evsource`
pub record EvSource : Type 0 where
  pub rxfxn : Option ℕ
  pub txfxn : Option ℕ
  pub cbstate : ℕ

-- A source as `memset` leaves it.
abbrev pub unset : EvSource
unset = record { rxfxn = none; txfxn = none; cbstate = 0 }

unfoldable pub create_evsources : ℕ → List EvSource
create_evsources zero = []
create_evsources (suc n) = unset ∷ create_evsources n

-- A write of one entry; outside the array it is undefined behaviour.
abbrev pub update : List EvSource → ℕ → (EvSource → EvSource) → Run (List EvSource)
update evs n f = elim (get_elem? evs n) [ none ↦ fault | some e ↦ ok (set evs n (f e)) ]

unfoldable pub set_evsource_rx : List EvSource → ℕ → Option ℕ → Run (List EvSource)
set_evsource_rx evs n rx = update evs n (λ e. record e { rxfxn = rx })

unfoldable pub set_evsource_tx : List EvSource → ℕ → Option ℕ → Run (List EvSource)
set_evsource_tx evs n tx = update evs n (λ e. record e { txfxn = tx })

unfoldable pub setup_evsource : List EvSource → ℕ → Option ℕ → Option ℕ → ℕ → Run (List EvSource)
setup_evsource evs n rfxn tfxn v =
    set_evsource_rx evs n rfxn
    >>= (λ evs'. set_evsource_tx evs' n tfxn)
    >>= (λ evs'. update evs' n (λ e. record e { cbstate = v }))

-- `struct evtables`
pub record EvTables : Type 0 where
  pub fdarray : List EvSource
  pub sigarray : List EvSource

-- A call of a callback, with its two arguments.
pub data Call : Type 0 where
  rx tx : (fxn n cbstate : ℕ) → Call

-- The flags of `epoll_event.events` that the library uses, and whether there is any other.
pub record EpollFlags : Type 0 where
  pub epollin : Bool
  pub epollpri : Bool
  pub epollrdhup : Bool
  pub epollout : Bool
  pub epolloneshot : Bool
  pub epollet : Bool
  pub other : Bool

-- `EVREAD` and `EVWRITE`
abbrev pub readable : EpollFlags → Bool
readable f = f.epollin || (f.epollpri || f.epollrdhup)

abbrev pub writable : EpollFlags → Bool
writable f = f.epollout

-- `kevententry`: the flags, and the descriptor in `data`.
pub record Event : Type 0 where
  pub fd : ℕ
  pub events : EpollFlags

-- `struct epoll_ctl_data`, with the entry beside it.
pub data Request : Type 0 where
  epoll_ctl_add epoll_ctl_mod : Event → Request

-- The tables, the requests made of the kernel so far, and the calls made so far.
pub record World : Type 0 where
  pub tables : EvTables
  pub asked : List Request
  pub calls : List Call

-- What the client's callbacks do to the tables, by the calls so far.
abbrev pub Client : Type 0
Client = List Call → EvTables → EvTables

-- Callbacks that register nothing.
abbrev pub quiet : Client
quiet calls t = t

abbrev pub perform : Client → Call → World → World
perform client c w =
    let calls = w.calls ++ (c ∷ []) in record w { tables = client calls w.tables; calls = calls }

abbrev pub perform_if : Client → (ℕ → Call) → Option ℕ → World → World
perform_if client c none w = w
perform_if client c (some fxn) w = perform client (c fxn) w

unfoldable pub handle_evsource_read : Client → List EvSource → ℕ → World → Run World
handle_evsource_read client evs n w = elim (get_elem? evs n) [
  | none ↦ fault
  | some e ↦ ok (perform_if client (λ fxn. rx fxn n e.cbstate) e.rxfxn w)
]

unfoldable pub handle_evsource_write : Client → List EvSource → ℕ → World → Run World
handle_evsource_write client evs n w = elim (get_elem? evs n) [
  | none ↦ fault
  | some e ↦ ok (perform_if client (λ fxn. tx fxn n e.cbstate) e.txfxn w)
]
