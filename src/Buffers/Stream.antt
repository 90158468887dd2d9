-- ===== src/Buffers/Stream.antt =====
-- buffers.c: what buffered_rxfxn hands to the client is the stream that it reads.
use libtorque.Base.{
  ℕ, zero, suc, ◌-◌, ◌*◌, ◌≤◌, ◌<◌, ◌≡◌, refl, sym, ap, ◌∙◌, Bool, true, false, List, [], ◌∷◌, ◌++◌,
  Option, none, some, length, take, drop, arith, ◌==◌, nonzero, Bool-cases, inl, inr,
}
use mathlib.Core.List.{append_assoc, append-nil}
use libtorque.Buffers.{size_t, minus, rxbuffer_valid}
use libtorque.Buffers.Advance.{IsBuffer, minus_lem, length-rxbuffer_valid, rxbuffer_advance_lem}
use libtorque.Buffers.Filled.{stored-IsBuffer, stored_lem, grown-IsBuffer, grown_lem}
use libtorque.Buffers.Callbacks.{
  Answer, bytes, end, again, interrupted, broken, Reply, Host, Link, Turn, ready, ended,
  out_of_fuel, Ending, growrxbuf, doubled, replied, call_rx, rxback, and_then, room, grow_full,
  enlarged, make_room, restore, respond, read_once, buffered_rxfxn,
}

abbrev pub read_bytes : Answer → List ℕ
read_bytes (bytes bs) = bs
read_bytes end = []
read_bytes again = []
read_bytes interrupted = []
read_bytes broken = []

-- What the documentation promises of `read` and of mod_pages, and what a client owes: it releases
-- bytes that are there. `received` and `released` are the streams on either side.
pub record IsHonest (K C : Type 0) (h : Host K C) (received : K → List ℕ) (released : C → List ℕ)
    : Type 0 where
  pub read_gives :
      (k : K) (n : ℕ) → received (h.read k n).kernel ≡ received k ++ read_bytes (h.read k n).answer
  pub read_fits : (k : K) (n : ℕ) → length (read_bytes (h.read k n).answer) ≤ n
  pub rx_takes :
      (c : C) (xs : List ℕ)
      → released (h.rx c xs).client ≡ released c ++ take (h.rx c xs).released xs
  pub rx_fits : (c : C) (xs : List ℕ) → (h.rx c xs).released ≤ length xs
  pub grow_doubles : (n : ℕ) (pages : List ℕ) → h.grow n ≡ some pages → length pages ≡ n
  pub grow_fits : (n : ℕ) (pages : List ℕ) → h.grow n ≡ some pages → n * 2 < size_t

take-drop : {A : Type 0} (n : ℕ) (xs : List A) → take n xs ++ drop n xs ≡ xs
take-drop zero xs = refl
take-drop (suc n) [] = refl
take-drop (suc n) (x ∷ xs) = ap (λ zs. x ∷ zs) (take-drop n xs)

abbrev pub Leaves : {K C : Type 0} → (Link K C → Type 0) → Turn K C → Type 0
Leaves P (ready s) = P s
Leaves P (ended e s) = P s
Leaves P out_of_fuel = Unit

and_then-Leaves :
    {K C : Type 0} (P : Link K C → Type 0) (r : Turn K C) (f : Link K C → Turn K C)
    → Leaves P r
    → ((s : Link K C) → P s → Leaves P (f s))
    → Leaves P (and_then r f)
and_then-Leaves P (ready s) f p k = k s p
and_then-Leaves P (ended e s) f p k = p
and_then-Leaves P out_of_fuel f p k = tt

restore-Leaves :
    {K C : Type 0} (P : Link K C → Type 0) (works : Bool) (e : Ending) (s : Link K C)
    → P s
    → Leaves P (restore works e s)
restore-Leaves P true e s p = p
restore-Leaves P false e s p = p

-- The buffer is sound, and what the client released with what is valid is what was received.
pub record IsLink (K C : Type 0) (received : K → List ℕ) (released : C → List ℕ) (s : Link K C)
    : Type 0 where
  pub buffer : IsBuffer (s.rxb)
  pub stream : released s.client ++ rxbuffer_valid s.rxb ≡ received s.kernel

module _ {K C : Type 0} (h : Host K C) (received : K → List ℕ) (released : C → List ℕ)
    (honest : IsHonest K C h received released) where
  abbrev Whole : Link K C → Type 0
  Whole = IsLink K C received released

  call_rx-IsLink : (s : Link K C) → Whole s → Leaves Whole (call_rx h s)
  unfolding call_rx
  call_rx-IsLink s v = elim (Bool-cases (reply.stops)) [ inl e ↦ rw (e) next | inr e ↦ rw (e) next ]
    where
      reply : Reply C
      reply = h.rx s.client (rxbuffer_valid s.rxb)

      next : Whole (replied s reply)
      next =
          let xs = rxbuffer_valid s.rxb in
          let fits = honest.rx_fits s.client xs in
          let size = length-rxbuffer_valid s.rxb v.buffer in
          let rest =
            rxbuffer_advance_lem s.rxb v.buffer reply.released (omega (arith, fits, size)) in
          record {
            buffer = rest.0;
            stream =
                rw (rest.1, honest.rx_takes s.client xs)
                  (append_assoc (released s.client) (take reply.released xs)
                      (drop reply.released xs)
                    ∙ ap (λ ys. released s.client ++ ys) (take-drop reply.released xs)
                    ∙ v.stream);
          }

  rxback-IsLink : (s : Link K C) → Whole s → Leaves Whole (rxback h s)
  unfolding rxback
  rxback-IsLink s v = elim (Bool-cases (nonzero (minus s.rxb.bufoff s.rxb.bufate))) [
    | inl e ↦ rw (e) (call_rx-IsLink s v)
    | inr e ↦ rw (e) v
  ]

  grow_full-IsLink : (s : Link K C) → Whole s → Leaves Whole (grow_full h s)
  unfolding grow_full growrxbuf
  grow_full-IsLink s v = elim (Bool-cases (room s.rxb == 0)) [
    | inr e ↦ rw (e) v
    | inl e ↦ rw (e) (grown (h.grow s.rxb.buftot) refl)
  ]
    where
      grown :
          (o : Option (List ℕ))
          → h.grow s.rxb.buftot ≡ o
          → Leaves Whole (enlarged s (doubled s.rxb o))
      grown none e = v
      grown (some pages) e =
          let size = honest.grow_doubles _ pages e in
          let fits = honest.grow_fits _ pages e in
          record {
            buffer = grown-IsBuffer s.rxb v.buffer pages size fits;
            stream =
                ap (λ xs. released s.client ++ xs) (grown_lem s.rxb v.buffer pages size fits)
                ∙ v.stream;
          }

  make_room-IsLink : (s : Link K C) → Whole s → Leaves Whole (make_room h s)
  unfolding make_room
  make_room-IsLink s v = elim (Bool-cases (room s.rxb == 0)) [
    | inr e ↦ rw (e) v
    | inl e ↦ rw (e) (and_then-Leaves Whole _ _ (rxback-IsLink s v) grow_full-IsLink)
  ]

  unread :
      (s : Link K C) (k : K)
      → Whole s
      → received k ≡ received s.kernel ++ []
      → Whole (record s { kernel = k })
  unread s k v e = record {
    buffer = v.buffer;
    stream = v.stream ∙ sym (append-nil (received s.kernel)) ∙ sym e;
  }

  -- What was read is stored, or the loop ends.
  respond-IsLink :
      (a : Answer) (s : Link K C) (k : K)
      → Whole s
      → received k ≡ received s.kernel ++ read_bytes a
      → length (read_bytes a) ≤ s.rxb.buftot - s.rxb.bufoff
      → Leaves Whole (respond h a (record s { kernel = k }))
  unfolding respond
  respond-IsLink (bytes bs) s k v e fits = record {
    buffer = stored-IsBuffer s.rxb v.buffer bs fits;
    stream =
        ap (λ xs. released s.client ++ xs) (stored_lem s.rxb v.buffer bs fits)
        ∙ sym (append_assoc (released s.client) (rxbuffer_valid s.rxb) bs)
        ∙ ap (λ xs. xs ++ bs) v.stream
        ∙ sym e;
  }
  respond-IsLink end s k v e fits =
      and_then-Leaves Whole _ _ (call_rx-IsLink _ (unread s k v e))
        λ s' w. restore-Leaves Whole _ _ s' w
  respond-IsLink again s k v e fits =
      and_then-Leaves Whole _ _ (rxback-IsLink _ (unread s k v e))
        λ s' w. restore-Leaves Whole _ _ s' w
  respond-IsLink interrupted s k v e fits = unread s k v e
  respond-IsLink broken s k v e fits = unread s k v e

  read_once-IsLink : (s : Link K C) → Whole s → Leaves Whole (read_once h s)
  unfolding read_once
  read_once-IsLink s v =
      let r = h.read s.kernel (room s.rxb) in
      let size = minus_lem s.rxb.buftot s.rxb.bufoff (v.buffer).off_in (v.buffer).small in
      respond-IsLink r.answer s r.kernel v (honest.read_gives s.kernel (room s.rxb))
        (omega (arith, size, honest.read_fits s.kernel (room s.rxb)))

  -- Where read, mod_pages and the client keep to `IsHonest` and the connection starts whole, at
  -- every exit of buffered_rxfxn the buffer is sound, and the bytes that the client released, with
  -- those that wait in the buffer, are the bytes received: none lost, repeated or reordered, however
  -- often the buffer moves or grows.
  pub buffered_rxfxn-IsLink :
      (fuel : ℕ) (s : Link K C)
      → IsLink K C received released s
      → Leaves (IsLink K C received released) (buffered_rxfxn fuel h s)
  unfolding buffered_rxfxn
  buffered_rxfxn-IsLink zero s v = tt
  buffered_rxfxn-IsLink (suc fuel) s v =
      and_then-Leaves Whole _ _ (and_then-Leaves Whole _ _ (make_room-IsLink s v) read_once-IsLink)
        (buffered_rxfxn-IsLink fuel)
