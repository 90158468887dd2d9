-- ===== src/Tls/Listener/Balance.antt =====
-- protos/ssl.c and torque.c: what the library holds once connections were accepted.
use libtorque.Base.{
  ℕ, ◌+◌, ◌≤◌, ◌≡◌, refl, sym, ◌∙◌, subst, Bool, true, false, not, Option, none, some, Run, ok, err,
  if_cases, arith, length, dec_lt, Returns,
}
use libtorque.Events.Sources.{EpollFlags, World}
use libtorque.Events.Wait.{Kernel, kevent_change}
use libtorque.Events.Dispatch.{result, add_fd_to_evhandler, add_fd_event, beyond_oneshot}
use libtorque.Events.Dispatch.Added.{
  add_fd_to_evhandler_beyond, add_fd_to_evhandler_inside, with_source, source,
}
use libtorque.Events.Timer.{Process, Reply, success, refused, syscall, minus_one, crash}
use libtorque.Api.{torque_addfd_unbuffered, reply_of, oneshot}
use libtorque.Tls.{want_read, want_write, other_error, Accepted, established, failing}
use libtorque.Tls.Accepting.{lost}
use libtorque.Tls.Listener.{
  Server, Meets, Listening, block_and_pages, without_block_and_pages, create_ssl_cbstate, added,
  add_conn, after_accept, with_cbstate, ssl_accept_internal, change, one_page_more, free_state,
}

add_fd_event-Returns :
    (kernel : Kernel) (w : World) (fd : ℕ) (rx tx : Option ℕ) (eflags : EpollFlags)
    → Returns (add_fd_event kernel w fd rx tx eflags)
unfolding add_fd_event
add_fd_event-Returns kernel w fd rx tx eflags =
    if_cases Returns (beyond_oneshot eflags) _ _ (λ _. tt)
      (λ _. by_result (kevent_change kernel w _))
  where
    by_result : (r : World × Bool) → Returns (result r)
    by_result (w', true) = tt
    by_result (w', false) = tt

-- A registration never touches memory outside its table.
add_fd_to_evhandler-Returns :
    (kernel : Kernel) (w : World) (fd : ℕ) (rx tx : Option ℕ) (cbstate : ℕ) (eflags : EpollFlags)
    → Returns (add_fd_to_evhandler kernel w fd rx tx cbstate eflags)
add_fd_to_evhandler-Returns kernel w fd rx tx cbstate eflags =
    elim (dec_lt fd (length w.tables.fdarray)) [
      | yes inside ↦
          subst Returns (sym (add_fd_to_evhandler_inside kernel w fd rx tx cbstate eflags inside))
            (add_fd_event-Returns kernel (with_source w fd (source rx tx cbstate)) fd rx tx eflags)
      | no outside ↦
          let beyond : length w.tables.fdarray ≤ fd = omega arith in
          subst Returns (sym (add_fd_to_evhandler_beyond kernel w fd rx tx cbstate eflags beyond))
            tt
    ]

-- The process of a reply has what it had, and there is one.
abbrev pub SameHeld : Process → Process → Type 0
SameHeld p p' = (p'.heap ≡ p.heap) × (p'.pages ≡ p.pages) × (p'.fds ≡ p.fds)

abbrev pub Registers : Process → Reply → Type 0
Registers p (success p') = SameHeld p p'
Registers p (refused e p') = SameHeld p p'
Registers p (syscall e p') = SameHeld p p'
Registers p (minus_one p') = SameHeld p p'
Registers p crash = ⊥

pub torque_addfd_unbuffered-Registers :
    (kernel : Kernel) (fd rx tx : Option ℕ) (state : ℕ) (p : Process)
    → Registers p (torque_addfd_unbuffered kernel fd rx tx state p)
unfolding torque_addfd_unbuffered
torque_addfd_unbuffered-Registers kernel none rx tx state p = (refl, refl, refl)
torque_addfd_unbuffered-Registers kernel (some n) rx tx state p =
    by_run _ (add_fd_to_evhandler-Returns kernel p.world n rx tx state oneshot)
  where
    by_run : (r : Run World) → Returns r → Registers p (reply_of p r)
    by_run (ok w) h = (refl, refl, refl)
    by_run (err w) h = (refl, refl, refl)
    by_run Run.fault h = absurd h
    by_run Run.out_of_fuel h = absurd h

-- `n` connections and `m` runs of pages more: a connection has a block, an SSL object and pages.
abbrev pub Grown : Server → (n m : ℕ) → Server → Type 0
Grown s n m s' =
    (s'.process.heap ≡ s.process.heap + n)
    × (s'.ssls ≡ s.ssls + n)
    × (s'.process.pages ≡ s.process.pages + n + m)

-- One connection, or none; the pages of one buffer are lost where the handshake is done at once.
abbrev pub Joins : Accepted → Server → Run Server → Type 0
Joins a s (ok s') = Grown s 1 (lost a) s' × (s'.process.fds ≡ s.process.fds)
Joins a s (err s') = (m : ℕ) × (m ≤ lost a) × Grown s 0 m s' × (s'.process.fds ≡ s.process.fds)
Joins a s Run.fault = ⊥
Joins a s Run.out_of_fuel = ⊥

added-Joins :
    (a : Accepted) (s s1 : Server) (r : Reply)
    → Grown s 1 (lost a) s1
    → s1.process.fds ≡ s.process.fds
    → Registers s1.process r
    → Joins a s (added s1 r)
added-Joins a s s1 (success p) g f k =
    ((omega (arith, g.0, k.0), g.1, omega (arith, g.2, k.1)), k.2 ∙ f)
added-Joins a s s1 (refused e p) g f k = (
  lost a,
  omega arith,
  (omega (arith, g.0, k.0), omega (arith, g.1), omega (arith, g.2, k.1)),
  k.2 ∙ f,
)
added-Joins a s s1 (syscall e p) g f k = (
  lost a,
  omega arith,
  (omega (arith, g.0, k.0), omega (arith, g.1), omega (arith, g.2, k.1)),
  k.2 ∙ f,
)
added-Joins a s s1 (minus_one p) g f k = (
  lost a,
  omega arith,
  (omega (arith, g.0, k.0), omega (arith, g.1), omega (arith, g.2, k.1)),
  k.2 ∙ f,
)
added-Joins a s s1 crash g f k = absurd k

nothing_lost :
    (a : Accepted) (s s' : Server)
    → Grown s 0 0 s'
    → s'.process.fds ≡ s.process.fds
    → Joins a s (err s')
nothing_lost a s s' g f = (0, omega arith, g, f)

add_conn-Joins :
    (a : Accepted) (s s1 : Server) (l : Listening) (sd : ℕ) (rx tx : Option ℕ) (state : ℕ)
    → Grown s 1 (lost a) s1
    → s1.process.fds ≡ s.process.fds
    → Joins a s (add_conn l sd rx tx state s1)
add_conn-Joins a s s1 l sd rx tx state g f =
    added-Joins a s s1 (torque_addfd_unbuffered l.kernel (some sd) rx tx state s1.process) g f
      (torque_addfd_unbuffered-Registers l.kernel (some sd) rx tx state s1.process)

after_accept-Joins :
    (l : Listening) (more_pages : Bool) (sd state : ℕ) (a : Accepted) (s s2 : Server)
    → Grown s 1 0 s2
    → s2.process.fds ≡ s.process.fds
    → Joins a s (after_accept l more_pages sd state a s2)
after_accept-Joins l false sd state established s s2 g f =
    (1, omega arith, (omega (arith, g.0), omega (arith, g.1), omega (arith, g.2)), f)
after_accept-Joins l true sd state established s s2 g f =
    add_conn-Joins established s (change one_page_more s2) l sd _ _ state
      (g.0, g.1, omega (arith, g.2)) f
after_accept-Joins l more_pages sd state (failing want_write) s s2 g f =
    add_conn-Joins (failing want_write) s s2 l sd _ _ state g f
after_accept-Joins l more_pages sd state (failing want_read) s s2 g f =
    add_conn-Joins (failing want_read) s s2 l sd _ _ state g f
after_accept-Joins l more_pages sd state (failing other_error) s s2 g f =
    nothing_lost (failing other_error) s (free_state s2)
      (omega (arith, g.0), omega (arith, g.1), omega (arith, g.2)) f

pub ssl_accept_internal-Joins :
    (l : Listening) (m : Meets) (sd : ℕ) (s : Server)
    → Joins m.accepted s (ssl_accept_internal l m sd s)
unfolding ssl_accept_internal
ssl_accept_internal-Joins l m sd s = by_state (create_ssl_cbstate m.block m.pages_found)
  where
    by_state : (state : Option ℕ) → Joins m.accepted s (with_cbstate l m sd state s)
    by_state none = nothing_lost m.accepted s s (omega arith, omega arith, omega arith) refl
    by_state (some state) =
        let s1 = change block_and_pages s in
        let s2 : Server = record s1 { ssls = s.ssls + 1 } in
        if_cases (Joins m.accepted s) (not m.ssl_new_works) _ _
          (λ _.
            nothing_lost m.accepted s (change without_block_and_pages s1)
              (omega arith, omega arith, omega arith) refl)
          (λ _.
            if_cases (Joins m.accepted s) (not m.set_fd_works) _ _
              (λ _.
                nothing_lost m.accepted s (free_state s2) (omega arith, omega arith, omega arith)
                  refl)
              (λ _.
                after_accept-Joins l m.more_pages_found sd state m.accepted s s2
                  (refl, refl, omega arith) refl))
