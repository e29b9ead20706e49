-- ===== src/I2c/Carry/Step.antt =====
-- A round of `esp32s31_i2c_fill`: what is queued, and then the next message after the last byte.
use esp32_s31_linux.Common.{
  ℕ, ◌<◌, ◌≡◌, refl, ap, ◌∙◌, sym, arith, some, ◌==◌, if◌then◌else◌, get_or, length, inl, inr,
  Bool-cases,
}
use esp32_s31_linux.I2c.{Message, no_message, I2c, Batch, next_msg, queue, fill_step}
use esp32_s31_linux.I2c.Bounds.{after_queue-some, Fits}
use esp32_s31_linux.I2c.Commands.{bytes_from-end}
use esp32_s31_linux.I2c.Bus.{bytes_from, pending}
use esp32_s31_linux.I2c.Carry.{Carried, Queued, subst2, queue-fresh, queue-rd, queue-wr}
use esp32_s31_linux.I2c.Carry.Queue.{queue_addr-Queued, queue_read-Queued, queue_write-Queued}

module _ (addr_byte : Message → ℕ) (start : I2c) where
  -- The round's end: on to the next message after the last byte.
  settle :
      (i : I2c) (b : Batch) (m : Message)
      → Queued addr_byte start m i b
      → Carried addr_byte start (if i.pos == m.len then next_msg i else i) b
  unfolding pending
  settle i b m q =
      let el : (m.len ≡ (get_or i.msgs i.msg no_message).len) =
        ap (λ (t : Message). t.len) q.current in
      elim (Bool-cases (i.pos == m.len)) [
        | inl last ↦
            let at_end : (i.pos ≡ (get_or i.msgs i.msg no_message).len) = ground (arith, el) in
            rw last (record {
              done = q.done;
              ran = q.ran;
              whole =
                  rw
                    (
                      ap (bytes_from i.memory (get_or i.msgs i.msg no_message)) at_end,
                      bytes_from-end,
                    )
                    at q.whole;
              placed = record { within = λ t. cc; fresh = λ t. refl; lens = q.lens };
              same_msgs = q.same_msgs;
              same_memory = q.same_memory;
              rx_in = q.rx_in;
              busy = inr q.busy;
            })
        | inr more ↦ rw more (record {
          done = q.done;
          ran = q.ran;
          whole = rw q.addressed q.whole;
          placed = record {
            within = λ t. (q.more, ground (arith, el, q.within));
            fresh = λ t. cc;
            lens = q.lens;
          };
          same_msgs = q.same_msgs;
          same_memory = q.same_memory;
          rx_in = q.rx_in;
          busy = inr q.busy;
        })
      ]

  queue-Queued :
      (i : I2c) (b : Batch) {i' : I2c} {b' : Batch}
      → i.msg < length i.msgs
      → Fits i b
      → Carried addr_byte start i b
      → queue addr_byte i b (get_or i.msgs i.msg no_message) ≡ some (i', b')
      → Queued addr_byte start (get_or i.msgs i.msg no_message) i' b'
  queue-Queued i b lt f c h =
      let m = get_or i.msgs i.msg no_message in
      elim (Bool-cases i.addressed) [
        | inr n ↦
            queue_addr-Queued addr_byte start i b lt n c (sym (queue-fresh addr_byte i b m n) ∙ h)
        | inl a ↦ elim (Bool-cases m.rd) [
          | inl r ↦
              queue_read-Queued addr_byte start i b f r a c (sym (queue-rd addr_byte i b m a r) ∙ h)
          | inr w ↦
              queue_write-Queued addr_byte start i b f w a c
                (sym (queue-wr addr_byte i b m a w) ∙ h)
        ]
      ]

  pub fill_step-Carried :
      (i : I2c) (b : Batch) (i' : I2c) (b' : Batch)
      → i.msg < length i.msgs
      → Fits i b
      → Carried addr_byte start i b
      → fill_step addr_byte i b (get_or i.msgs i.msg no_message) ≡ some (i', b')
      → Carried addr_byte start i' b'
  unfolding fill_step
  fill_step-Carried i b i' b' lt f c h =
      let m = get_or i.msgs i.msg no_message in
      let (i1, b1, q, e, e') = after_queue-some m (queue addr_byte i b m) h in
      subst2 (Carried addr_byte start) (sym e) (sym e') (settle i1 b1 m (queue-Queued i b lt f c q))
