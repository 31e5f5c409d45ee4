-- ===== src/Loader/Consume/Laws.antt =====
-- What the capture loop over `ring_buffer__consume` counts.
use bpf_ringbuf.Common.{ℕ, zero, suc, ◌%◌, ◌^◌, ◌≡◌, refl, false, arith, ap, ◌∙◌}
use bpf_ringbuf.Loader.Int.{ℤ, pos, negsuc, is_negative, to_nat}
use bpf_ringbuf.Loader.{Answers, Loader, ring_buffer_consume}
use bpf_ringbuf.Loader.Account.{Account, account}
use bpf_ringbuf.Loader.Consume.{as_u64, handle_event, Consumes, consume_once, consume_loop}

as_u64_lem : (a : ℤ) → is_negative a ≡ false → as_u64 a ≡ to_nat a % 2 ^ 64
as_u64_lem (pos n) h = refl
as_u64_lem (negsuc n) h = ground arith

-- The same but for the number of records read.
abbrev pub with_consumed : ℕ → Account → Account
with_consumed n t = record t { consumed = n }

-- The loop changes the count and the log, and `n_elaborated` is what libbpf has reported.
pub record Looped (l l' : Loader) : Type 0 where
  pub same_ringbuf : l'.ringbuf ≡ l.ringbuf
  pub same_skel : l'.skel ≡ l.skel
  pub same_enabled : l'.capture_enabled ≡ l.capture_enabled
  pub same_drops : l'.n_drops ≡ l.n_drops
  pub held : account l'.log ≡ with_consumed (account l'.log).consumed (account l.log)
  pub read :
      l.n_elaborated ≡ (account l.log).consumed % 2 ^ 64
      → l'.n_elaborated ≡ (account l'.log).consumed % 2 ^ 64

module _ (answers : Answers) (c : Consumes handle_event answers) where
  consume_once-Looped : (l : Loader) → Looped l (consume_once answers l)
  unfolding consume_once
  consume_once-Looped l =
      let reads = answers l.log (ring_buffer_consume l.ringbuf) in
      let e = as_u64_lem reads (c.counted (λ ctx p n. refl) l.log l.ringbuf) in
      record {
        same_ringbuf = refl;
        same_skel = refl;
        same_enabled = refl;
        same_drops = refl;
        held = refl;
        read = λ h. rw h (rw e (omega arith));
      }

  pub consume_loop-Looped : (k : ℕ) (l : Loader) → Looped l (consume_loop answers k l)
  unfolding consume_loop
  consume_loop-Looped zero l = record {
    same_ringbuf = refl;
    same_skel = refl;
    same_enabled = refl;
    same_drops = refl;
    held = refl;
    read = λ h. h;
  }
  consume_loop-Looped (suc k) l =
      let a = consume_once-Looped l in
      let b = consume_loop-Looped k (consume_once answers l) in
      record {
        same_ringbuf = b.same_ringbuf ∙ a.same_ringbuf;
        same_skel = b.same_skel ∙ a.same_skel;
        same_enabled = b.same_enabled ∙ a.same_enabled;
        same_drops = b.same_drops ∙ a.same_drops;
        held = b.held ∙ ap (with_consumed _) a.held;
        read = λ h. b.read (a.read h);
      }
