-- ===== src/Bench/Smp/Finish.antt =====
-- What a submit does to the account of a test over one ring for each CPU with overlapping runs.
use mathlib.Core.Path.{subst}
use bpf_ringbuf.Common.{
  ℕ, ◌+◌, ◌≡◌, refl, sym, ap, ◌∙◌, Option, none, some, List, ◌∷◌, ◌++◌, arith, ◌==◌, update,
  Bool-cases, inl, inr, if◌then◌else◌,
}
use bpf_ringbuf.Queue.Committed.{Kept}
use bpf_ringbuf.Rings.{reader}
use bpf_ringbuf.Rings.Store.{==-eq}
use bpf_ringbuf.Rings.Held.{Held-update, waits-update}
use bpf_ringbuf.Bpf.{Helpers, rb_no_wakeup}
use bpf_ringbuf.Bench.Cpus.{extract}
use bpf_ringbuf.Bench.Cpus.Submit.{Submits-Tracks, extract-Splits}
use bpf_ringbuf.Bench.Smp.{count_at, Mapped, Bench, finished, mapped, view}
use bpf_ringbuf.Bench.Smp.Parts.{count_at-append, Placed, Placed-one}
use bpf_ringbuf.Bench.Smp.Balance.{Balance}

module _ (h : Helpers) (cnt : ℕ) (m : Mapped h cnt) where
  open h use {Event, submit}

  -- One event is taken out of the list.
  one_fewer :
      (j : ℕ) (before after : List Event) (ev : Event) (events : List Event)
      → events ≡ before ++ (ev ∷ after)
      → count_at m.place j events
        ≡ count_at m.place j (before ++ after) + (if m.place ev == j then 1 else 0)
  one_fewer j before after ev events e = omega (
    arith,
    ap (count_at m.place j) e,
    count_at-append m.place j before (ev ∷ after),
    count_at-append m.place j before after,
  )

  submit-Balance :
      (k : ℕ) (b : Bench h) (before after : List Event) (ev : Event)
      → b.in_flight ≡ before ++ (ev ∷ after)
      → Balance h cnt m k b
      → Balance h cnt m k
          (record b { kernel = submit ev rb_no_wakeup b.kernel; in_flight = before ++ after })
  submit-Balance k b before after ev e a =
      let i = m.place ev in
      let r = mapped h cnt m b in
      let st' = submit ev rb_no_wakeup b.kernel in
      let held = a.reserved ∙ e in
      let (lt, others) =
        Placed-one m.place cnt before after ev (subst (Placed m.place cnt) e a.placed) in
      let (kept, t) = a.held i lt in
      let (q', t', as_many, kept', less) =
        Submits-Tracks (reader r i) (view h cnt m st' i) (a.waiting i)
          (m.view-submit before after ev rb_no_wakeup b.kernel lt held) t kept
          (a.busy i lt ∙ ap (count_at m.place i) (sym a.reserved)) in
      let more = waits-update cnt i a.waiting q' lt in
      record {
        drops = a.drops;
        skipped = a.skipped;
        elaborated = a.elaborated;
        waiting = update a.waiting i q';
        all = omega (arith, a.all, more, as_many);
        n_drops = a.n_drops;
        n_skipped = a.n_skipped;
        n_elaborated = a.n_elaborated;
        on = a.on;
        valid = record { current = a.valid.current; allocated = a.valid.allocated };
        count = a.count;
        held =
            Held-update Kept cnt i r (mapped h cnt m (record b { kernel = st' })) a.waiting q'
              (λ j other.
                ap (λ g. record (reader r j) { ring = g })
                  (m.submit-others before after ev rb_no_wakeup b.kernel held j other))
              kept' t' a.held;
        reserved = m.pending-submit before after ev rb_no_wakeup b.kernel held;
        placed = others;
        busy = λ j below. elim (Bool-cases (i == j)) [
          | inl here ↦
              let eq : i ≡ j = ==-eq i j here in
              let fewer = rw here at (one_fewer j before after ev b.in_flight e) in
              rw here (
                omega
                  (arith, less, fewer, a.busy i lt, ap (λ k. count_at m.place k b.in_flight) eq))
          | inr other ↦
              let fewer = rw other at (one_fewer j before after ev b.in_flight e) in
              rw other (omega (arith, fewer, a.busy j below))
        ];
      }

  pub finish-Balance :
      (k i : ℕ) (b : Bench h)
      → Balance h cnt m k b
      → Balance h cnt m k (finished h b (extract i b.in_flight))
  finish-Balance k i b a = outcome (extract i b.in_flight) refl
    where
      outcome :
          (o : Option (Event × List Event))
          → extract i b.in_flight ≡ o
          → Balance h cnt m k (finished h b o)
      outcome none e = a
      outcome (some (ev, rest)) e =
          let (before, after, split, others) = extract-Splits i b.in_flight ev rest e in
          rw others (submit-Balance k b before after ev split a)
