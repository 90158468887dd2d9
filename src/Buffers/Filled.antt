-- ===== src/Buffers/Filled.antt =====
-- buffers.c: storing what read returned, and growing the buffer.
use libtorque.Base.{
  ℕ, ◌+◌, ◌-◌, ◌*◌, ◌%◌, ◌≤◌, ◌<◌, ◌≡◌, sym, ap, ◌∙◌, List, ◌++◌, length, take, drop, arith,
  length-take, length-drop, length-append,
}
use libtorque.Buffers.{RxBuf, size_t, write_at, rxbuffer_valid}
use libtorque.Buffers.Bytes.{take-append, take-beyond, take-length, drop-append, drop-take}
use libtorque.Buffers.Advance.{IsBuffer, rxbuffer_valid_lem, length-rxbuffer_valid}

module _ (rxb : RxBuf) (v : IsBuffer rxb) where
  module _ (bs : List ℕ) (h : length bs ≤ rxb.buftot - rxb.bufoff) where
    abbrev stored : RxBuf
    stored = record rxb {
      buffer = write_at rxb.bufoff bs rxb.buffer;
      bufoff = (rxb.bufoff + length bs) % size_t;
    }

    off_lem : (rxb.bufoff + length bs) % size_t ≡ rxb.bufoff + length bs
    off_lem = omega (arith, v.off_in, v.small)

    pub stored-IsBuffer : IsBuffer stored
    stored-IsBuffer = record {
      total =
          length-append (take rxb.bufoff rxb.buffer) _
          ∙ omega (
            arith,
            length-append bs (drop (rxb.bufoff + length bs) rxb.buffer),
            length-take rxb.bufoff rxb.buffer,
            length-drop (rxb.bufoff + length bs) rxb.buffer,
            v.total,
            v.off_in,
            h,
          );
      ate_in = omega (arith, off_lem, v.ate_in);
      off_in = omega (arith, off_lem, v.off_in, h);
      small = v.small;
    }

    -- What is read joins the valid bytes at their end.
    pub stored_lem : rxbuffer_valid stored ≡ rxbuffer_valid rxb ++ bs
    stored_lem = rxbuffer_valid_lem stored stored-IsBuffer ∙ rw (cut, count) joined
      where
        after : List ℕ
        after = bs ++ drop (rxb.bufoff + length bs) rxb.buffer

        cut : drop rxb.bufate (take rxb.bufoff rxb.buffer ++ after) ≡ rxbuffer_valid rxb ++ after
        cut =
            drop-append rxb.bufate (take rxb.bufoff rxb.buffer) after
              (omega (arith, length-take rxb.bufoff rxb.buffer, v.total, v.off_in, v.ate_in))
            ∙ ap (λ xs. xs ++ after)
                (drop-take rxb.bufate rxb.bufoff rxb.buffer ∙ sym (rxbuffer_valid_lem rxb v))

        count :
            (rxb.bufoff + length bs) % size_t - rxb.bufate ≡ length (rxbuffer_valid rxb) + length bs
        count = omega (arith, off_lem, v.ate_in, length-rxbuffer_valid rxb v)

        joined :
            take (length (rxbuffer_valid rxb) + length bs) (rxbuffer_valid rxb ++ after)
            ≡ rxbuffer_valid rxb ++ bs
        joined =
            take-beyond (rxbuffer_valid rxb) after (length bs)
            ∙ ap (λ xs. rxbuffer_valid rxb ++ xs) (take-length bs _)

  module _ (pages : List ℕ) (h : length pages ≡ rxb.buftot) (small : rxb.buftot * 2 < size_t) where
    abbrev grown : RxBuf
    grown = record rxb { buffer = rxb.buffer ++ pages; buftot = rxb.buftot * 2 % size_t }

    pub grown-IsBuffer : IsBuffer grown
    grown-IsBuffer = record {
      total = length-append rxb.buffer pages ∙ omega (arith, h, v.total, small);
      ate_in = v.ate_in;
      off_in = omega (arith, v.off_in, small);
      small = omega arith;
    }

    pub grown_lem : rxbuffer_valid grown ≡ rxbuffer_valid rxb
    grown_lem =
        rxbuffer_valid_lem grown grown-IsBuffer
        ∙ ap (take (rxb.bufoff - rxb.bufate))
            (drop-append rxb.bufate rxb.buffer pages (omega (arith, v.ate_in, v.off_in, v.total)))
        ∙ take-append (rxb.bufoff - rxb.bufate) (drop rxb.bufate rxb.buffer) pages
            (omega (arith, length-drop rxb.bufate rxb.buffer, v.ate_in, v.off_in, v.total))
        ∙ sym (rxbuffer_valid_lem rxb v)
