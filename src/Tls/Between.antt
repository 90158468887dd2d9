-- ===== src/Tls/Between.antt =====
-- protos/ssl.c: lemmas on how the callbacks leave the descriptor and what the library holds.
use libtorque.Base.{
  ℕ, ◌+◌, ◌≤◌, ◌≡◌, refl, ap, ◌∙◌, Bool, true, false, ◌&&◌, ◌||◌, List, [], ◌∷◌, ◌++◌, Option, none,
  some, Run, ok, ◌>>=◌, get_elem?, set, get_elem?-set_same, set-set, arith,
}
use libtorque.Buffers.{initialize_rxbuffer}
use libtorque.Events.Sources.{
  EvSource, EpollFlags, Request, epoll_ctl_mod, World, readable, writable, set_evsource_rx,
  set_evsource_tx,
}
use libtorque.Events.Wait.{make_changes, kevent_change}
use libtorque.Events.Dispatch.{restorefd, is_some, result, with_fdarray}
use libtorque.Events.Registry.{update-some}
use libtorque.Tls.{
  Host, Tls, Outcome, kept, dropped, crash, out_of_fuel, ssl_rxfxn_at, ssl_txfxn_at, drop_conn,
  in_world, restored, rearm, set_callbacks, redirect, fxn_if, new_buffer, begin_transfer,
}

-- Events that a source has a callback for.
abbrev pub Heard : EpollFlags → EvSource → Type 0
Heard flags src =
    (readable flags && is_some src.rxfxn || writable flags && is_some src.txfxn) ≡ true

-- The last request of all is for events of the descriptor that the table has a callback for.
abbrev pub IsArmed : ℕ → (before after : World) → Type 0
IsArmed fd before after =
    (flags : EpollFlags) × (src : EvSource) × (after.asked
      ≡ before.asked ++ (epoll_ctl_mod (record { fd = fd; events = flags }) ∷ []))
    × (get_elem? after.tables.fdarray fd ≡ some src)
    × Heard flags src

-- What a connection has to give back.
pub record IsOwned {K C : Type 0} (s : Tls K C) : Type 0 where
  pub heap : 1 ≤ s.process.heap
  pub fds : 1 ≤ s.process.fds
  pub ssls : 1 ≤ s.ssls
  pub pages : 1 ≤ s.process.pages
  pub is_buffered : s.buffered ≡ true

-- The same blocks, descriptors, SSL objects and requests, and `n` runs of pages more.
abbrev pub Holds : {K C : Type 0} → (before : Tls K C) → ℕ → Tls K C → Type 0
Holds before n s =
    (s.process.heap ≡ before.process.heap)
    × (s.process.fds ≡ before.process.fds)
    × (s.ssls ≡ before.ssls)
    × (s.process.pages ≡ before.process.pages + n)

-- One of each less.
abbrev pub GivesBack : {K C : Type 0} → (before : Tls K C) → ℕ → Tls K C → Type 0
GivesBack before n s =
    (s.process.heap + 1 ≡ before.process.heap)
    × (s.process.fds + 1 ≡ before.process.fds)
    × (s.ssls + 1 ≡ before.ssls)
    × (s.process.pages + 1 ≡ before.process.pages + n)

-- How a callback is to end, where `n` runs of pages are lost.
abbrev pub Rearms : {K C : Type 0} → ℕ → ℕ → Tls K C → Outcome K C → Type 0
Rearms fd n before (kept s) = Holds before n s × IsArmed fd before.process.world s.process.world
Rearms fd n before (dropped s) = GivesBack before n s
Rearms fd n before crash = ⊥
Rearms fd n before out_of_fuel = ⊥

-- The world once the callbacks of a descriptor are replaced.
abbrev pub redirected_world : ℕ → Option ℕ → Option ℕ → EvSource → World → World
redirected_world fd rx tx src w =
    let t = w.tables in
    record w {
      tables = record t { fdarray = set t.fdarray fd (record src { rxfxn = rx; txfxn = tx }) };
    }

pub set_callbacks_lem :
    (fd : ℕ) (rx tx : Option ℕ) (src : EvSource) (w : World)
    → get_elem? w.tables.fdarray fd ≡ some src
    → set_callbacks fd rx tx w ≡ ok (redirected_world fd rx tx src w)
unfolding set_callbacks set_evsource_rx set_evsource_tx
set_callbacks_lem fd rx tx src w e =
    let evs = w.tables.fdarray in
    let s1 : EvSource = record src { rxfxn = rx } in
    let s2 : EvSource = record s1 { txfxn = tx } in
    ap (λ (r : Run (List EvSource)). with_fdarray w (r >>= (λ t. set_evsource_tx t fd tx)))
      (update-some evs fd src _ e)
    ∙ ap (with_fdarray w) (update-some (set evs fd s1) fd s1 _ (get_elem?-set_same evs fd src s1 e))
    ∙ ap (λ (t : List EvSource). with_fdarray w (ok t)) (set-set evs fd s1 s2)

module _ {K C : Type 0} (h : Host K C) (fd : ℕ) (before : Tls K C) (owned : IsOwned before) where
  -- Between two of a callback's calls.
  pub record Between (n : ℕ) (src : EvSource) (s : Tls K C) : Type 0 where
    pub holds : Holds before n s
    pub is_buffered : s.buffered ≡ true
    pub asked : s.process.world.asked ≡ before.process.world.asked
    pub entry : get_elem? s.process.world.tables.fdarray fd ≡ some src

  pub drop_conn-Rearms :
      (n : ℕ) (s : Tls K C)
      → Holds before n s
      → s.buffered ≡ true
      → Rearms fd n before (drop_conn s)
  drop_conn-Rearms n s held b = (
    omega (arith, held.0, owned.heap),
    omega (arith, held.1, owned.fds),
    omega (arith, held.2, owned.ssls),
    rw (b) (omega (arith, held.3, owned.pages)),
  )

  pub rearm-Rearms :
      (n : ℕ) (src : EvSource) (flags : EpollFlags) (s : Tls K C)
      → Heard flags src
      → Between n src s
      → Rearms fd n before (rearm h.kernel fd flags s)
  unfolding rearm restorefd kevent_change make_changes
  rearm-Rearms n src flags s heard b = by_answer (h.kernel s.process.world.asked request)
    where
      request : Request
      request =
          epoll_ctl_mod
            (record { fd = fd; events = record flags { epolloneshot = true; epollet = true } })

      by_answer :
          (works : Bool)
          → Rearms fd n before (
              restored s (
                result (
                  record (s.process.world) { asked = s.process.world.asked ++ (request ∷ []) },
                  works && true,
                )))
      by_answer true = (
        b.holds,
        (
          record flags { epolloneshot = true; epollet = true },
          src,
          ap (λ (l : List Request). l ++ (request ∷ [])) b.asked,
          b.entry,
          heard,
        ),
      )
      by_answer false =
          drop_conn-Rearms n
            (in_world s
              (record (s.process.world) { asked = s.process.world.asked ++ (request ∷ []) }))
            b.holds b.is_buffered

  pub redirect-Rearms :
      (n : ℕ) (src : EvSource) (rx tx : Option ℕ) (s : Tls K C) (k : Tls K C → Outcome K C)
      (P : Outcome K C → Type 0)
      → Between n src s
      → ((s' : Tls K C) → Between n (record src { rxfxn = rx; txfxn = tx }) s' → P (k s'))
      → P (redirect fd rx tx s k)
  redirect-Rearms n src rx tx s k P b later =
      let e = set_callbacks_lem fd rx tx src s.process.world b.entry in
      rw (e) (
        later _ (record {
          holds = b.holds;
          is_buffered = b.is_buffered;
          asked = b.asked;
          entry = get_elem?-set_same s.process.world.tables.fdarray fd src _ b.entry;
        }))

  -- A second initialize_rxbuffer loses the first buffer's pages.
  pub begin_transfer-Rearms :
      (src : EvSource) (s : Tls K C) (k : Tls K C → Outcome K C) (P : Outcome K C → Type 0)
      → Between 0 src s
      → ((s' : Tls K C) → GivesBack before 1 s' → P (dropped s'))
      → ((s' : Tls K C)
          → Between 1
              (record src {
                rxfxn = fxn_if s.rxfxn ssl_rxfxn_at;
                txfxn = fxn_if s.txfxn ssl_txfxn_at;
              })
              s'
          → P (k s'))
      → P (begin_transfer h fd s k)
  unfolding initialize_rxbuffer
  begin_transfer-Rearms src s k P b failed later = by_pages h.pages
    where
      then_redirect : Tls K C → Outcome K C
      then_redirect s' =
          redirect fd (fxn_if s.rxfxn ssl_rxfxn_at) (fxn_if s.txfxn ssl_txfxn_at) s' k

      by_pages :
          (pages : Option (List ℕ)) → P (new_buffer (initialize_rxbuffer pages) s then_redirect)
      by_pages none = failed _ (
        omega (arith, b.holds.0, owned.heap),
        omega (arith, b.holds.1, owned.fds),
        omega (arith, b.holds.2, owned.ssls),
        omega (arith, b.holds.3),
      )
      by_pages (some pages) =
          let e =
            set_callbacks_lem fd (fxn_if s.rxfxn ssl_rxfxn_at) (fxn_if s.txfxn ssl_txfxn_at) src
              s.process.world b.entry in
          rw (e) (
            later _ (record {
              holds = (b.holds.0, b.holds.1, b.holds.2, omega (arith, b.holds.3));
              is_buffered = refl;
              asked = b.asked;
              entry = get_elem?-set_same s.process.world.tables.fdarray fd src _ b.entry;
            }))
