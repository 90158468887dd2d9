-- ===== src/Tls/Listener/Owned.antt =====
-- torque.c: what the library holds after torque_addssl.
use libtorque.Base.{ℕ, ◌+◌, ◌≡◌, refl, Bool, Option, none, some, arith}
use libtorque.Errors.{resource}
use libtorque.Events.Wait.{Kernel}
use libtorque.Events.Timer.{Process, Reply, success, refused, syscall, minus_one, crash}
use libtorque.Tls.Listener.{
  block_and_pages, create_ssl_cbstate, ssl_accept_rxfxn_at, ssl_added, with_listener, torque_addssl,
}
use libtorque.Tls.Listener.Balance.{SameHeld, Registers, torque_addfd_unbuffered-Registers}

-- What torque_addssl holds: a block and the pages of a buffer after a success, else nothing more.
abbrev pub ListenerOwned : Process → Reply → Type 0
ListenerOwned p (success p') = (p'.heap ≡ p.heap + 1) × (p'.pages ≡ p.pages + 1) × (p'.fds ≡ p.fds)
ListenerOwned p (refused e p') = (e ≡ resource) × SameHeld p p'
ListenerOwned p (syscall e p') = ⊥
ListenerOwned p (minus_one p') = ⊥
ListenerOwned p crash = ⊥

-- torque_addssl holds a block and the pages of a buffer after a success; on every failure it returns
-- TORQUE_ERR_RESOURCE and holds nothing more.
pub torque_addssl-ListenerOwned :
    (kernel : Kernel) (block : Option ℕ) (pages_found : Bool) (fd : Option ℕ) (p : Process)
    → ListenerOwned p (torque_addssl kernel block pages_found fd p)
unfolding torque_addssl
torque_addssl-ListenerOwned kernel block pages_found fd p =
    by_state (create_ssl_cbstate block pages_found)
  where
    by_reply : (r : Reply) → Registers (block_and_pages p) r → ListenerOwned p (ssl_added r)
    by_reply (success p') k = (k.0, k.1, k.2)
    by_reply (refused e p') k = (refl, (omega (arith, k.0), omega (arith, k.1), k.2))
    by_reply (syscall e p') k = (refl, (omega (arith, k.0), omega (arith, k.1), k.2))
    by_reply (minus_one p') k = (refl, (omega (arith, k.0), omega (arith, k.1), k.2))
    by_reply crash k = absurd k

    by_state : (state : Option ℕ) → ListenerOwned p (with_listener kernel state fd p)
    by_state none = (refl, (refl, refl, refl))
    by_state (some state) = by_reply _ (
        torque_addfd_unbuffered-Registers kernel fd (some ssl_accept_rxfxn_at) none state
          (block_and_pages p))
