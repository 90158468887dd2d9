-- ===== src/Buffers/Callbacks.antt =====
-- buffers.c: the callbacks that fill and drain a connection's receive buffer. The kernel, the page
-- allocator and the client's own callbacks are parameters.
use libtorque.Base.{
  ℕ, zero, suc, ◌+◌, ◌*◌, ◌%◌, Bool, List, ◌++◌, Option, none, some, length, ◌==◌, if◌then◌else◌,
  nonzero,
}
use libtorque.Buffers.{RxBuf, size_t, minus, write_at, rxbuffer_valid, rxbuffer_advance}

-- What read returns: bytes, 0, or -1 with EAGAIN or EWOULDBLOCK, with EINTR, or with another
-- `errno`.
pub data Answer : Type 0 where
  bytes : List ℕ → Answer
  end again interrupted broken : Answer

pub record Reading (K : Type 0) : Type 0 where
  pub kernel : K
  pub answer : Answer

-- What a client's callback does: the bytes it releases by rxbuffer_advance, and its result.
pub record Reply (C : Type 0) : Type 0 where
  pub client : C
  pub released : ℕ
  pub stops : Bool

-- `read`, the two callbacks, the new half of the pages that mod_pages doubles, and whether
-- restorefd works for EVREAD and for EVWRITE.
pub record Host (K C : Type 0) : Type 0 where
  pub read : K → ℕ → Reading K
  pub rx : C → List ℕ → Reply C
  pub tx : C → List ℕ → Reply C
  pub grow : ℕ → Option (List ℕ)
  pub restore_read : K → Bool
  pub restore_write : K → Bool

-- The connection: what the loop changes.
pub record Link (K C : Type 0) : Type 0 where
  pub kernel : K
  pub client : C
  pub rxb : RxBuf

-- How a callback leaves the descriptor: as it is, since the client's callback stopped or had
-- nothing to do, armed for reading or writing, or closed.
pub data Ending : Type 0 where
  stopped idle armed_read armed_write closed : Ending

pub data Turn (K C : Type 0) : Type 0 where
  ready : Link K C → Turn K C
  ended : Ending → Link K C → Turn K C
  out_of_fuel : Turn K C

abbrev pub doubled : RxBuf → Option (List ℕ) → Option RxBuf
doubled rxb none = none
doubled rxb (some pages) =
    some (record rxb { buffer = rxb.buffer ++ pages; buftot = rxb.buftot * 2 % size_t })

unfoldable pub growrxbuf : {K C : Type 0} → Host K C → RxBuf → Option RxBuf
growrxbuf h rxb = doubled rxb (h.grow rxb.buftot)

-- The state after a callback.
abbrev pub replied : {K C : Type 0} → Link K C → Reply C → Link K C
replied s r = record s { client = r.client; rxb = rxbuffer_advance r.released s.rxb }

unfoldable pub call_rx : {K C : Type 0} → Host K C → Link K C → Turn K C
call_rx h s =
    let r = h.rx s.client (rxbuffer_valid s.rxb) in
    if r.stops then ended stopped (replied s r) else ready (replied s r)

unfoldable pub rxback : {K C : Type 0} → Host K C → Link K C → Turn K C
unfolding call_rx
rxback h s = if nonzero (minus s.rxb.bufoff s.rxb.bufate) then call_rx h s else ready s

abbrev pub and_then : {K C : Type 0} → Turn K C → (Link K C → Turn K C) → Turn K C
and_then (ready s) f = f s
and_then (ended e s) f = ended e s
and_then out_of_fuel f = out_of_fuel

abbrev pub room : RxBuf → ℕ
room rxb = minus rxb.buftot rxb.bufoff

abbrev pub enlarged : {K C : Type 0} → Link K C → Option RxBuf → Turn K C
enlarged s none = ended closed s
enlarged s (some rxb) = ready (record s { rxb = rxb })

unfoldable pub grow_full : {K C : Type 0} → Host K C → Link K C → Turn K C
unfolding growrxbuf
grow_full h s = if room s.rxb == 0 then enlarged s (growrxbuf h s.rxb) else ready s

-- The loop's first statement.
unfoldable pub make_room : {K C : Type 0} → Host K C → Link K C → Turn K C
unfolding rxback grow_full
make_room h s = if room s.rxb == 0 then and_then (rxback h s) (grow_full h) else ready s

-- `bytes bs` where it is not empty: they are stored at `bufoff`.
abbrev pub store : {K C : Type 0} → List ℕ → Link K C → Link K C
store bs s =
    let rxb = s.rxb in
    record s {
      rxb = record rxb {
        buffer = write_at rxb.bufoff bs rxb.buffer;
        bufoff = (rxb.bufoff + length bs) % size_t;
      };
    }

-- `restorefd`, which returns, or goes on to close the descriptor.
abbrev pub restore : {K C : Type 0} → Bool → Ending → Link K C → Turn K C
restore works e s = if works then ended e s else ended closed s

-- The rest of the loop's body, given what read returned. A read of no bytes is `end`.
unfoldable pub respond : {K C : Type 0} → Host K C → Answer → Link K C → Turn K C
unfolding call_rx rxback
respond h (bytes bs) s = ready (store bs s)
respond h end s = and_then (call_rx h s) (λ s'. restore (h.restore_write s'.kernel) armed_write s')
respond h again s = and_then (rxback h s) (λ s'. restore (h.restore_read s'.kernel) armed_read s')
respond h interrupted s = ready s
respond h broken s = ended closed s

unfoldable pub read_once : {K C : Type 0} → Host K C → Link K C → Turn K C
unfolding respond
read_once h s =
    let r = h.read s.kernel (room s.rxb) in respond h r.answer (record s { kernel = r.kernel })

-- The loop reads once in each round.
unfoldable pub buffered_rxfxn : {K C : Type 0} → ℕ → Host K C → Link K C → Turn K C
unfolding make_room read_once
buffered_rxfxn zero h s = out_of_fuel
buffered_rxfxn (suc fuel) h s =
    and_then (and_then (make_room h s) (read_once h)) (λ s'. buffered_rxfxn fuel h s')

unfoldable pub buffered_txfxn : {K C : Type 0} → Host K C → Link K C → Turn K C
buffered_txfxn h s =
    let r = h.tx s.client (rxbuffer_valid s.rxb) in
    let after = restore (h.restore_read s.kernel) armed_read (replied s r) in
    if nonzero (minus s.rxb.bufoff s.rxb.bufate)
    then if r.stops then ended closed (replied s r) else after
    else ended idle s
