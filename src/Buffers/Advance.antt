-- ===== src/Buffers/Advance.antt =====
-- buffers.h: rxbuffer_advance, and the storing of what was read.
use libtorque.Base.{
  ℕ, ◌+◌, ◌-◌, ◌%◌, ◌≤◌, ◌<◌, ◌≡◌, refl, sym, ap, ◌∙◌, [], ◌++◌, length, take, drop, arith,
  length-drop, length-append, ◌==◌, Bool-cases, inl, inr, ==_iff,
}
use libtorque.Buffers.{RxBuf, size_t, minus, write_at, rxbuffer_valid, rxbuffer_advance}
use libtorque.Buffers.Bytes.{take-length, drop-take, drop-drop, length-between}

-- What holds of a buffer between two operations.
pub record IsBuffer (rxb : RxBuf) : Type 0 where
  pub total : length rxb.buffer ≡ rxb.buftot
  pub ate_in : rxb.bufate ≤ rxb.bufoff
  pub off_in : rxb.bufoff ≤ rxb.buftot
  pub small : rxb.buftot < size_t

pub minus_lem : (a b : ℕ) → b ≤ a → a < size_t → minus a b ≡ a - b
minus_lem a b h k = omega arith

pub rxbuffer_valid_lem :
    (rxb : RxBuf)
    → IsBuffer rxb
    → rxbuffer_valid rxb ≡ take (rxb.bufoff - rxb.bufate) (drop rxb.bufate rxb.buffer)
unfolding rxbuffer_valid
rxbuffer_valid_lem rxb v =
    ap (λ (n : ℕ). take n (drop rxb.bufate rxb.buffer))
      (minus_lem rxb.bufoff rxb.bufate v.ate_in (omega (arith, v.off_in, v.small)))

pub length-rxbuffer_valid :
    (rxb : RxBuf) → IsBuffer rxb → length (rxbuffer_valid rxb) ≡ rxb.bufoff - rxb.bufate
length-rxbuffer_valid rxb v =
    ap length (rxbuffer_valid_lem rxb v)
    ∙ length-between rxb.bufate rxb.bufoff rxb.buffer v.ate_in (omega (arith, v.off_in, v.total))

module _ (rxb : RxBuf) (v : IsBuffer rxb) where
  module _ (s : ℕ) (h : s ≤ rxb.bufoff - rxb.bufate) where
    ate_lem : (rxb.bufate + s) % size_t ≡ rxb.bufate + s
    ate_lem = omega (arith, v.ate_in, v.off_in, v.small)

    abbrev eaten : RxBuf
    eaten = record rxb { bufate = rxb.bufate + s }

    eaten-IsBuffer : IsBuffer eaten
    eaten-IsBuffer = record {
      total = v.total;
      ate_in = omega (arith, v.ate_in, h);
      off_in = v.off_in;
      small = v.small;
    }

    -- The bytes that are left.
    drop-rxbuffer_valid :
        drop s (rxbuffer_valid rxb)
        ≡ take (rxb.bufoff - (rxb.bufate + s)) (drop (rxb.bufate + s) rxb.buffer)
    drop-rxbuffer_valid =
        let e : rxb.bufoff - rxb.bufate - s ≡ rxb.bufoff - (rxb.bufate + s) = omega arith in
        ap (drop s) (rxbuffer_valid_lem rxb v)
        ∙ drop-take s (rxb.bufoff - rxb.bufate) (drop rxb.bufate rxb.buffer)
        ∙ rw (e, drop-drop rxb.bufate s rxb.buffer) refl

    -- What an advance is to make of the buffer.
    abbrev Advanced : RxBuf → Type 0
    Advanced r = IsBuffer r × (rxbuffer_valid r ≡ drop s (rxbuffer_valid rxb))

    eaten-valid : rxbuffer_valid eaten ≡ drop s (rxbuffer_valid rxb)
    eaten-valid = rxbuffer_valid_lem eaten eaten-IsBuffer ∙ sym drop-rxbuffer_valid

    empty-IsBuffer : IsBuffer (record rxb { bufoff = 0; bufate = 0 })
    empty-IsBuffer = record {
      total = v.total;
      ate_in = omega arith;
      off_in = omega arith;
      small = v.small;
    }

    emptied-Advanced :
        rxb.bufate + s ≡ rxb.buftot → Advanced (record rxb { bufoff = 0; bufate = 0 })
    emptied-Advanced whole = (empty-IsBuffer, rxbuffer_valid_lem _ empty-IsBuffer ∙ sym none_left)
      where
        none_left : drop s (rxbuffer_valid rxb) ≡ []
        none_left =
            let e : rxb.bufoff - (rxb.bufate + s) ≡ 0 = omega (arith, whole, v.off_in) in
            drop-rxbuffer_valid ∙ rw (e) refl

    moved-Advanced : Advanced (record rxb {
      buffer = write_at 0 (rxbuffer_valid eaten) rxb.buffer;
      bufoff = minus rxb.bufoff (rxb.bufate + s);
      bufate = 0;
    })
    moved-Advanced =
        let size = length-rxbuffer_valid eaten eaten-IsBuffer in
        let w : IsBuffer moved = record {
          total =
              length-append (rxbuffer_valid eaten) _
              ∙ omega (
                arith,
                size,
                length-drop (0 + length (rxbuffer_valid eaten)) rxb.buffer,
                v.total,
                v.off_in,
              );
          ate_in = omega arith;
          off_in = omega (arith, left_lem, v.off_in);
          small = v.small;
        } in
        (w, rxbuffer_valid_lem moved w ∙ front ∙ eaten-valid)
      where
        left_lem : minus rxb.bufoff (rxb.bufate + s) ≡ rxb.bufoff - (rxb.bufate + s)
        left_lem = minus_lem _ _ (eaten-IsBuffer.ate_in) (omega (arith, v.off_in, v.small))

        moved : RxBuf
        moved = record rxb {
          buffer = write_at 0 (rxbuffer_valid eaten) rxb.buffer;
          bufoff = minus rxb.bufoff (rxb.bufate + s);
          bufate = 0;
        }

        front :
            take
              (minus rxb.bufoff (rxb.bufate + s) - 0)
              (rxbuffer_valid eaten ++ drop (0 + length (rxbuffer_valid eaten)) rxb.buffer)
            ≡ rxbuffer_valid eaten
        front =
            let e : minus rxb.bufoff (rxb.bufate + s) - 0 ≡ length (rxbuffer_valid eaten) =
              omega (arith, left_lem, length-rxbuffer_valid eaten eaten-IsBuffer) in
            rw (e) (take-length (rxbuffer_valid eaten) _)

    eaten-Advanced : Advanced eaten
    eaten-Advanced = (eaten-IsBuffer, eaten-valid)

    -- In a sound buffer with at least that many valid bytes, rxbuffer_advance takes the released
    -- bytes off the front of the valid ones, wherever it keeps them, and leaves a sound buffer.
    pub rxbuffer_advance_lem :
        IsBuffer (rxbuffer_advance s rxb)
        × (rxbuffer_valid (rxbuffer_advance s rxb) ≡ drop s (rxbuffer_valid rxb))
    unfolding rxbuffer_advance
    rxbuffer_advance_lem = rw (ate_lem) (elim (Bool-cases (rxb.bufate + s == rxb.buftot)) [
      | inl e ↦ rw (e) (emptied-Advanced ((==_iff _ _).0 e))
      | inr e ↦ rw (e) (elim (Bool-cases (rxb.bufoff == rxb.buftot)) [
        | inl f ↦ rw (f) moved-Advanced
        | inr f ↦ rw (f) eaten-Advanced
      ])
    ])
