-- ===== src/Buffers/Tests.antt =====
-- The theorems on the receive buffer at concrete inputs.
use libtorque.Base.{
  ℕ, ◌*◌, ◌<◌, ◌≤◌, ◌≡◌, refl, sym, ap, Bool, true, false, List, [], ◌∷◌, ◌++◌, Option, none, some,
  length, take, drop, arith, ◌==◌, if◌then◌else◌, ==_iff, length-take,
}
use mathlib.Core.List.{append-nil}
use libtorque.Buffers.{RxBuf, size_t, rxbuffer_valid, rxbuffer_advance}
use libtorque.Buffers.Advance.{IsBuffer, rxbuffer_advance_lem}
use libtorque.Buffers.Callbacks.{bytes, end, Reading, Reply, Host, Link, buffered_rxfxn}
use libtorque.Buffers.Stream.{IsHonest, IsLink, Leaves, read_bytes, buffered_rxfxn-IsLink}
use libtorque.Buffers.Rounds.{Continues, Returns, buffered_rxfxn-Returns}

-- A peer that sends some packets and then closes, with what it has sent so far.
record Peer : Type 0 where
  packets : List (List ℕ)
  sent : List ℕ

-- A read of one packet; what does not fit is the next packet.
read_packet : List (List ℕ) → List ℕ → ℕ → Reading Peer
read_packet [] sent n = record { kernel = record { packets = []; sent = sent }; answer = end }
read_packet (p ∷ ps) sent n = record {
  kernel = record { packets = ps; sent = sent ++ take n p };
  answer = bytes (take n p);
}

abbrev size_of : Option (List ℕ) → ℕ
size_of none = 0
size_of (some xs) = length xs

-- Four more bytes for a buffer of four.
abbrev four_more : ℕ → Option (List ℕ)
four_more n = if n == 4 then some (0 ∷ 0 ∷ 0 ∷ 0 ∷ []) else none

-- A client that releases the first byte of what it is shown, and keeps what it released.
abbrev take_one : List ℕ → List ℕ → Reply (List ℕ)
take_one c [] = record { client = c; released = 0; stops = false }
take_one c (x ∷ xs) = record { client = c ++ (x ∷ []); released = 1; stops = false }

abbrev host : Host Peer (List ℕ)
host = record {
  read = λ k n. read_packet k.packets k.sent n;
  rx = take_one;
  tx = take_one;
  grow = four_more;
  restore_read = λ k. true;
  restore_write = λ k. true;
}

read_packet-gives :
    (ps : List (List ℕ)) (sent : List ℕ) (n : ℕ)
    → (read_packet ps sent n).kernel.sent ≡ sent ++ read_bytes (read_packet ps sent n).answer
unfolding read_packet
read_packet-gives [] sent n = sym (append-nil sent)
read_packet-gives (p ∷ ps) sent n = refl

read_packet-fits :
    (ps : List (List ℕ)) (sent : List ℕ) (n : ℕ)
    → length (read_bytes (read_packet ps sent n).answer) ≤ n
unfolding read_packet
read_packet-fits [] sent n = omega arith
read_packet-fits (p ∷ ps) sent n = omega (arith, length-take n p)

read_packet-less :
    (ps : List (List ℕ)) (sent : List ℕ) (n : ℕ)
    → Continues (read_packet ps sent n).answer
    → length ((read_packet ps sent n).kernel.packets) < length ps
unfolding read_packet
read_packet-less [] sent n c = absurd c
read_packet-less (p ∷ ps) sent n c = omega arith

take_one-takes : (c xs : List ℕ) → (take_one c xs).client ≡ c ++ take (take_one c xs).released xs
take_one-takes c [] = sym (append-nil c)
take_one-takes c (x ∷ xs) = refl

take_one-fits : (c xs : List ℕ) → (take_one c xs).released ≤ length xs
take_one-fits c [] = omega arith
take_one-fits c (x ∷ xs) = omega arith

four_more_lem :
    (n : ℕ) (pages : List ℕ) → four_more n ≡ some pages → (length pages ≡ n) × (n * 2 < size_t)
four_more_lem n pages e = by_test (n == 4) refl e
  where
    nothing : none ≡ some pages → ⊥
    nothing h = cc h

    by_test :
        (b : Bool)
        → (n == 4) ≡ b
        → (if b then some (0 ∷ 0 ∷ 0 ∷ 0 ∷ []) else none) ≡ some pages
        → (length pages ≡ n) × (n * 2 < size_t)
    by_test true h e' =
        let four = (==_iff n 4).0 h in
        let size : 4 ≡ length pages = ap size_of e' in
        (omega (arith, four, size), omega (arith, four))
    by_test false h e' = absurd (nothing e')

honest : IsHonest Peer (List ℕ) host (λ k. k.sent) (λ c. c)
honest = record {
  read_gives = λ k n. read_packet-gives k.packets k.sent n;
  read_fits = λ k n. read_packet-fits k.packets k.sent n;
  rx_takes = take_one-takes;
  rx_fits = take_one-fits;
  grow_doubles = λ n pages e. (four_more_lem n pages e).0;
  grow_fits = λ n pages e. (four_more_lem n pages e).1;
}

abbrev fresh : RxBuf
fresh = record { buffer = 0 ∷ 0 ∷ 0 ∷ 0 ∷ []; buftot = 4; bufoff = 0; bufate = 0 }

abbrev connection : Link Peer (List ℕ)
connection = record {
  kernel = record { packets = (1 ∷ 2 ∷ 3 ∷ []) ∷ (4 ∷ 5 ∷ 6 ∷ []) ∷ (7 ∷ []) ∷ []; sent = [] };
  client = [];
  rxb = fresh;
}

fresh-IsBuffer : IsBuffer fresh
fresh-IsBuffer = record {
  total = refl;
  ate_in = omega arith;
  off_in = omega arith;
  small = omega arith;
}

connection-IsLink : IsLink Peer (List ℕ) (λ k. k.sent) (λ c. c) connection
unfolding rxbuffer_valid
connection-IsLink = record { buffer = fresh-IsBuffer; stream = refl }

buffered_rxfxn-IsLink_example :
    Leaves (IsLink Peer (List ℕ) (λ k. k.sent) (λ c. c)) (buffered_rxfxn 5 host connection)
buffered_rxfxn-IsLink_example =
    buffered_rxfxn-IsLink host (λ k. k.sent) (λ c. c) honest 5 connection connection-IsLink

buffered_rxfxn-Returns_example : Returns (buffered_rxfxn 4 host connection)
buffered_rxfxn-Returns_example =
    buffered_rxfxn-Returns host (λ k. length k.packets) (λ k n. read_packet-less k.packets k.sent n)
      4 connection (omega arith)

-- A full buffer of which one byte was released before.
abbrev full : RxBuf
full = record { buffer = 1 ∷ 2 ∷ 3 ∷ 4 ∷ []; buftot = 4; bufoff = 4; bufate = 1 }

full-IsBuffer : IsBuffer full
full-IsBuffer = record {
  total = refl;
  ate_in = omega arith;
  off_in = omega arith;
  small = omega arith;
}

rxbuffer_advance_lem_example :
    IsBuffer (rxbuffer_advance 1 full)
    × (rxbuffer_valid (rxbuffer_advance 1 full) ≡ drop 1 (rxbuffer_valid full))
rxbuffer_advance_lem_example = rxbuffer_advance_lem full full-IsBuffer 1 (omega arith)
