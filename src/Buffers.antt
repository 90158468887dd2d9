-- ===== src/Buffers.antt =====
-- buffers.h: the receive buffer.
pub mod Callbacks
pub mod Bytes
pub mod Advance
pub mod Filled
pub mod Stream
pub mod Rounds
mod Tests
use libtorque.Base.{
  ℕ, zero, suc, ◌+◌, ◌-◌, ◌*◌, ◌%◌, ◌^◌, Bool, true, false, List, [], ◌∷◌, ◌++◌, Option, none, some,
  length, take, drop, ◌==◌, if◌then◌else◌, nonzero,
}

-- `torque_rxbuf`; `buffer` holds the `buftot` bytes.
pub record RxBuf : Type 0 where
  pub buffer : List ℕ
  pub buftot : ℕ
  pub bufoff : ℕ
  pub bufate : ℕ

-- Sizes have 64 bits.
abbrev pub size_t : ℕ
size_t = 2 ^ 64

abbrev pub minus : ℕ → ℕ → ℕ
minus a b = (a + (size_t - b)) % size_t

-- The bytes `bs` written from `off` on.
abbrev pub write_at : ℕ → List ℕ → List ℕ → List ℕ
write_at off bs buffer = take off buffer ++ (bs ++ drop (off + length bs) buffer)

-- The bytes that rxbuffer_valid points to, with its `*valid` as their number.
unfoldable pub rxbuffer_valid : RxBuf → List ℕ
rxbuffer_valid rxb = take (minus rxb.bufoff rxb.bufate) (drop rxb.bufate rxb.buffer)

unfoldable pub rxbuffer_advance : ℕ → RxBuf → RxBuf
rxbuffer_advance s rxb =
    let ate = (rxb.bufate + s) % size_t in
    let eaten = record rxb { bufate = ate } in
    if ate == rxb.buftot
    then record rxb { bufoff = 0; bufate = 0 }
    else if rxb.bufoff == rxb.buftot
    then record rxb {
      buffer = write_at 0 (rxbuffer_valid eaten) rxb.buffer;
      bufoff = minus rxb.bufoff ate;
      bufate = 0;
    }
    else eaten

-- `initialize_rxbuffer`, given the pages of get_big_page.
unfoldable pub initialize_rxbuffer : Option (List ℕ) → Option RxBuf
initialize_rxbuffer none = none
initialize_rxbuffer (some pages) =
    some (record { buffer = pages; buftot = length pages; bufoff = 0; bufate = 0 })
