-- ===== src/Api/Owns.antt =====
-- torque.c: what the calls of the interface hold when they return.
use libtorque.Base.{ℕ, ◌+◌, ◌≡◌, refl, Bool, Option, none, some, Run, ok, err, arith}
use libtorque.Events.Sources.{World}
use libtorque.Events.Wait.{Kernel}
use libtorque.Events.Dispatch.{add_fd_to_evhandler}
use libtorque.Events.Timer.{Process, Reply, success, refused, syscall, minus_one, crash, malloced}
use libtorque.Api.{
  Callbacks, reply_of, paged, freed_on_error, free_rxbuffercb, in_place_of, with_rxbuffer,
  torque_addfd, torque_addconnector, torque_addconnector_unbuffered, Network, in_progress, oneshot,
  create_rxbuffercb,
}

-- A reply holds what the process held, with the given numbers of blocks and pages more: after a
-- success, after an error of the library or a system call's, and after -1.
abbrev pub Holds : Process → (heap pages : ℕ) → Process → Type 0
Holds p heap pages p' = (p'.heap ≡ p.heap + heap) × (p'.pages ≡ p.pages + pages) × (p'.fds ≡ p.fds)

abbrev pub BufferOwned : Process → Reply → Type 0
BufferOwned p (success p') = Holds p 1 1 p'
BufferOwned p (refused e p') = Holds p 0 0 p'
BufferOwned p (syscall e p') = ⊥
BufferOwned p (minus_one p') = Holds p 1 0 p'
BufferOwned p crash = Unit

registered-BufferOwned :
    (p : Process) (r : Run World)
    → BufferOwned p (freed_on_error free_rxbuffercb (reply_of (paged (malloced p)) r))
registered-BufferOwned p (ok w) = (refl, refl, refl)
registered-BufferOwned p (err w) = (refl, omega arith, refl)
registered-BufferOwned p Run.fault = tt
registered-BufferOwned p Run.out_of_fuel = tt

with_rxbuffer-BufferOwned :
    (kernel : Kernel) (cb : Callbacks) (cbctx : Option ℕ) (n : ℕ) (rx tx : Option ℕ) (p : Process)
    → BufferOwned p (with_rxbuffer kernel cb cbctx n rx tx p)
with_rxbuffer-BufferOwned kernel cb none n rx tx p = (omega arith, omega arith, refl)
with_rxbuffer-BufferOwned kernel cb (some c) n rx tx p = registered-BufferOwned p (
    add_fd_to_evhandler kernel p.world n (in_place_of rx cb.buffered_rxfxn)
      (in_place_of tx cb.buffered_txfxn) c oneshot)

-- After a success torque_addfd holds one block and the pages of one buffer, and after an error of
-- the library nothing. Where the registration fails, it returns -1, gives the pages back, and keeps
-- the block.
pub torque_addfd-BufferOwned :
    (kernel : Kernel) (cb : Callbacks) (block : Option ℕ) (pages_found : Bool) (fd rx tx : Option ℕ)
    (p : Process)
    → BufferOwned p (torque_addfd kernel cb block pages_found fd rx tx p)
unfolding torque_addfd
torque_addfd-BufferOwned kernel cb block pages_found none rx tx p = (omega arith, omega arith, refl)
torque_addfd-BufferOwned kernel cb block pages_found (some n) rx tx p =
    with_rxbuffer-BufferOwned kernel cb (create_rxbuffercb block pages_found) n rx tx p

-- While the connection is in progress, torque_addconnector does what its unbuffered variant does: it
-- makes no buffer for the buffered callbacks.
pub torque_addconnector_unbuffers :
    (kernel : Kernel) (cb : Callbacks) (net : Network) (fd rx tx : Option ℕ) (state : ℕ)
    (p : Process)
    → net.connect ≡ in_progress
    → torque_addconnector kernel cb net fd rx tx p
      ≡ torque_addconnector_unbuffered kernel cb net fd rx tx state p
unfolding torque_addconnector torque_addconnector_unbuffered
torque_addconnector_unbuffers kernel cb net none rx tx state p h = refl
torque_addconnector_unbuffers kernel cb net (some n) rx tx state p h = rw (h) refl
