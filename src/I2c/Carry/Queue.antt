-- ===== src/I2c/Carry/Queue.antt =====
-- What the three queues of `esp32s31_i2c_fill` add to a list shows what they take of the transfer.
use esp32_s31_linux.Common.{
  ℕ, ◌+◌, ◌-◌, ◌<◌, ◌≡◌, refl, ap, ◌∙◌, arith, [], ◌∷◌, ◌++◌, map, some, true, false, get_or,
  length, read_bytes, length-append, length-read_bytes, sub32, min,
}
use mathlib.Core.Path.{ap₂}
use mathlib.Core.List.{append_assoc}
use esp32_s31_linux.I2c.{Message, no_message, I2c, Batch, queue_addr, queue_read, queue_write}
use esp32_s31_linux.I2c.Bounds.{Fits}
use esp32_s31_linux.I2c.Commands.{
  past_guard, run-shown, shown-restart, read_commands-run, writes-round, length-map, reads-round,
  read_now, read_now-busy, send_loop-record, shown-bytes,
}
use esp32_s31_linux.I2c.Bus.{restart, sent, shown-write, reads, bytes_from}
use esp32_s31_linux.I2c.Carry.{Carried, Queued, pending-fresh, step-whole, All-snoc}

module _ (addr_byte : Message → ℕ) (start : I2c) where
  pub queue_addr-Queued :
      (i : I2c) (b : Batch) {i' : I2c} {b' : Batch}
      → i.msg < length i.msgs
      → i.addressed ≡ false
      → Carried addr_byte start i b
      → queue_addr addr_byte i b (get_or i.msgs i.msg no_message) ≡ some (i', b')
      → Queued addr_byte start (get_or i.msgs i.msg no_message) i' b'
  unfolding queue_addr
  queue_addr-Queued i b lt a c h =
      past_guard (λ p. Queued addr_byte start (get_or i.msgs i.msg no_message) p.0 p.1) _ _ h
        λ g. record {
          current = refl;
          done =
              (c.done ++ restart ∷ [])
              ++ sent true (addr_byte (get_or i.msgs i.msg no_message)) ∷ [];
          ran = λ ts.
              rw (append_assoc i.tx_fifo (addr_byte (get_or i.msgs i.msg no_message) ∷ []) ts) (
                run-shown _ _ _ _ _ _ _ _ (run-shown _ _ _ _ _ _ _ _ (c.ran _) (shown-restart _))
                  (shown-write 1 _ (omega arith)));
          whole =
              rw (c.placed.fresh a, append_assoc, append_assoc, ← pending-fresh addr_byte i lt a)
                c.whole;
          more = lt;
          addressed = refl;
          within = omega (arith, c.placed.fresh a);
          lens = c.placed.lens;
          same_msgs = c.same_msgs;
          same_memory = c.same_memory;
          rx_in = c.rx_in;
          busy = omega (
            arith,
            length-append (c.done ++ restart ∷ [])
                (sent true (addr_byte (get_or i.msgs i.msg no_message)) ∷ []),
          );
        }

  pub queue_read-Queued :
      (i : I2c) (b : Batch) {i' : I2c} {b' : Batch}
      → Fits i b
      → (get_or i.msgs i.msg no_message).rd ≡ true
      → i.addressed ≡ true
      → Carried addr_byte start i b
      → queue_read i b (get_or i.msgs i.msg no_message) ≡ some (i', b')
      → Queued addr_byte start (get_or i.msgs i.msg no_message) i' b'
  unfolding queue_read bytes_from
  queue_read-Queued i b f r a c h =
      let m = get_or i.msgs i.msg no_message in
      let n = min (sub32 m.len i.pos) (sub32 32 b.rx) in
      let k = m.len - i.pos in
      let e : (sub32 m.len i.pos ≡ k) = omega (arith, c.placed.within a, c.placed.lens i.msg) in
      past_guard (λ p. Queued addr_byte start (get_or i.msgs i.msg no_message) p.0 p.1) _ _ h
        λ g. record {
          current = refl;
          done = c.done ++ read_now n k;
          ran = λ ts. rw e (read_commands-run _ _ _ _ _ _ _ (ground (arith, f.rx_room)) (c.ran ts));
          whole =
              step-whole addr_byte start i c.done (read_now n k) _ a
                (rw r (
                  ap (λ t. read_now n k ++ reads t) (omega (arith, e))
                  ∙ reads-round n k (ground arith) (omega (arith, e))
                      (omega (arith, c.placed.lens i.msg))))
                c.whole;
          more = (c.placed.within a).0;
          addressed = a;
          within = omega (arith, c.placed.within a, e);
          lens = c.placed.lens;
          same_msgs = c.same_msgs;
          same_memory = c.same_memory;
          rx_in =
              All-snoc _ i.rx (record { buf = m.buf + i.pos; len = n }) c.rx_in
                λ x lo hi. record {
                  index = i.msg;
                  rd = r;
                  low = omega arith;
                  high = omega (arith, c.placed.within a, e);
                };
          busy = omega (
            arith,
            length-append c.done (read_now n k),
            read_now-busy n k (ground arith) (ground (arith, f.rx_room)),
          );
        }

  pub queue_write-Queued :
      (i : I2c) (b : Batch) {i' : I2c} {b' : Batch}
      → Fits i b
      → (get_or i.msgs i.msg no_message).rd ≡ false
      → i.addressed ≡ true
      → Carried addr_byte start i b
      → queue_write i b (get_or i.msgs i.msg no_message) ≡ some (i', b')
      → Queued addr_byte start (get_or i.msgs i.msg no_message) i' b'
  unfolding queue_write bytes_from
  queue_write-Queued i b f r a c h =
      let m = get_or i.msgs i.msg no_message in
      let n = min (sub32 m.len i.pos) (sub32 32 b.tx) in
      let k = m.len - i.pos in
      let sent_now = read_bytes i.memory (m.buf + i.pos) n in
      let e : (sub32 m.len i.pos ≡ k) = omega (arith, c.placed.within a, c.placed.lens i.msg) in
      let w : (length sent_now ≡ n) = length-read_bytes i.memory (m.buf + i.pos) n in
      past_guard (λ p. Queued addr_byte start (get_or i.msgs i.msg no_message) p.0 p.1) _ _ h
        λ g.
          let pos_n : (0 < n) = ground arith in
          rw (send_loop-record n _ m) (record {
            current = refl;
            done = c.done ++ map (sent true) sent_now;
            ran = λ ts. rw (append_assoc i.tx_fifo sent_now ts) (
                run-shown _ _ _ _ _ _ _ _ (c.ran (sent_now ++ ts))
                  (shown-bytes n sent_now ts w (ground (arith, f.tx_room))));
            whole =
                step-whole addr_byte start i c.done (map (sent true) sent_now) _ a
                  (rw r (
                    ap (λ t. map (sent true) sent_now ++ map (sent true) t)
                      (ap₂ (read_bytes i.memory) (omega arith) (omega arith))
                    ∙ writes-round i.memory (m.buf + i.pos) n k (omega (arith, e))))
                  c.whole;
            more = (c.placed.within a).0;
            addressed = a;
            within = omega (arith, c.placed.within a, e);
            lens = c.placed.lens;
            same_msgs = c.same_msgs;
            same_memory = c.same_memory;
            rx_in = c.rx_in;
            busy = omega (
              arith,
              length-append c.done (map (sent true) sent_now),
              length-map sent_now,
              w,
              pos_n,
            );
          })
