-- ===== src/Bench/Libbpf/Laws.antt =====
-- What a test over libbpf's `ring_buffer__consume` prints at its end.
use mathlib.Core.Path.{subst, ap₂}
use bpf_ringbuf.Common.{
  ℕ, ◌+◌, ◌%◌, ◌^◌, ◌<◌, ◌≤◌, ◌≡◌, refl, ap, ◌∙◌, inl, inr, List, [], ◌∷◌, false, arith, ◌==◌,
}
use bpf_ringbuf.Loader.Int.{pos}
use bpf_ringbuf.Loader.{Loader, Answers, tell, print}
use bpf_ringbuf.Loader.Main.{Outcome, exits, captures, signal_callback, single_signal_callback}
use bpf_ringbuf.Loader.Consume.{as_u64, handle_event, consume_once}
use bpf_ringbuf.Cases.Interrupt.{printed, clean-printed}
use bpf_ringbuf.Bpf.{Helpers, Globals}
use bpf_ringbuf.Bpf.Programs.Outcome.{Counter, Counted}
use bpf_ringbuf.Bench.{Turn, event, read, events}
use bpf_ringbuf.Bench.Libbpf.{Consumer, Session, begin, since, take_turn, take_turns, at_signal}

module _ (h : Helpers) (c : Counter h) where
  open h use {State}

  -- After `k` events: each was dropped, or skipped, or is elaborated, or its record waits; the counters
  -- hold the first three numbers, modulo 2 ^ 64. At most `fresh` records wait.
  pub record Balance (k fresh : ℕ) (s : Session h) : Type 0 where
    pub drops : ℕ
    pub skipped : ℕ
    pub elaborated : ℕ
    pub all : drops + (skipped + (elaborated + c.count s.kernel)) ≡ k
    pub few : c.count s.kernel ≤ fresh
    pub n_drops : s.globals.n_drops ≡ drops % 2 ^ 64
    pub n_skipped : s.globals.n_skipped ≡ skipped % 2 ^ 64
    pub n_elaborated : s.loader.n_elaborated ≡ elaborated % 2 ^ 64
    pub on : (s.globals.capture_enabled == 0) ≡ false

  begin-Balance :
      (l : Loader) (st : State)
      → c.count st ≡ 0
      → l.capture_enabled ≡ 1
      → l.n_elaborated ≡ 0
      → Balance 0 0 (begin l st)
  begin-Balance l st none_wait on unread = record {
    drops = 0;
    skipped = 0;
    elaborated = 0;
    all = omega arith;
    few = omega arith;
    n_drops = refl;
    n_skipped = refl;
    n_elaborated = unread;
    on = rw on refl;
  }

  event-Balance :
      (k fresh : ℕ) (s : Session h) (r : Globals × State)
      → Balance k fresh s
      → Counted h c s.globals s.kernel r
      → Balance (k + 1) (fresh + 1) (record s { globals = r.0; kernel = r.1 })
  event-Balance k fresh s (g, st) a (inl (e, same)) = rw e (record {
    drops = a.drops + 1;
    skipped = a.skipped;
    elaborated = a.elaborated;
    all = omega (arith, a.all);
    few = omega (arith, a.few);
    n_drops = omega (arith, a.n_drops);
    n_skipped = a.n_skipped;
    n_elaborated = a.n_elaborated;
    on = a.on;
  })
  event-Balance k fresh s (g, st) a (inr (inl (e, same))) = rw e (record {
    drops = a.drops;
    skipped = a.skipped + 1;
    elaborated = a.elaborated;
    all = omega (arith, a.all);
    few = omega (arith, a.few);
    n_drops = a.n_drops;
    n_skipped = omega (arith, a.n_skipped);
    n_elaborated = a.n_elaborated;
    on = a.on;
  })
  event-Balance k fresh s (g, st) a (inr (inr (e, more))) = rw e (record {
    drops = a.drops;
    skipped = a.skipped;
    elaborated = a.elaborated;
    all = omega (arith, a.all);
    few = omega (arith, a.few);
    n_drops = a.n_drops;
    n_skipped = a.n_skipped;
    n_elaborated = a.n_elaborated;
    on = a.on;
  })

  module _ (program : Globals → State → Globals × State)
      (law : (g : Globals) (st : State)
        → (g.capture_enabled == 0) ≡ false
        → Counted h c g st (program g st))
      (k : Consumer h c handle_event) where
    -- A call of libbpf that finds fewer records than an `int` can count.
    emptied :
        (s : Session h) (n fresh : ℕ)
        → n < 2 ^ 31
        → Balance n fresh s
        → ((k.consume s.loader.ringbuf s.kernel).0 ≡ pos (c.count s.kernel))
          × (c.count (k.consume s.loader.ringbuf s.kernel).1 ≡ 0)
    emptied s n fresh small a =
        k.takes_all (λ ctx p sz. refl) s.loader.ringbuf s.kernel (omega (arith, a.all))

    read-Balance :
        (n fresh : ℕ) (s : Session h)
        → n < 2 ^ 31
        → Balance n fresh s
        → Balance n 0 (take_turn h program k.consume read s)
    unfolding take_turn consume_once
    read-Balance n fresh s small a =
        let (result, none_left) = emptied s n fresh small a in
        let number : as_u64 (k.consume s.loader.ringbuf s.kernel).0 ≡ c.count s.kernel % 2 ^ 64 =
          ap as_u64 result in
        record {
          drops = a.drops;
          skipped = a.skipped;
          elaborated = a.elaborated + c.count s.kernel;
          all = omega (arith, a.all);
          few = omega arith;
          n_drops = a.n_drops;
          n_skipped = a.n_skipped;
          n_elaborated = omega (arith, a.n_elaborated);
          on = a.on;
        }

    turns-Balance :
        (ts : List Turn) (n fresh : ℕ) (s : Session h)
        → n + events ts < 2 ^ 31
        → Balance n fresh s
        → Balance (n + events ts) (since fresh ts) (take_turns h program k.consume ts s)
    unfolding take_turns take_turn
    turns-Balance [] n fresh s small a = subst (λ i. Balance i fresh s) (omega arith) a
    turns-Balance (event ∷ ts) n fresh s small a =
        let s' = take_turn h program k.consume event s in
        subst (λ i. Balance i (since (fresh + 1) ts) (take_turns h program k.consume ts s'))
          (omega arith)
          (turns-Balance ts (n + 1) (fresh + 1) s' (omega arith)
            (event-Balance n fresh s (program s.globals s.kernel) a (law s.globals s.kernel a.on)))
    turns-Balance (read ∷ ts) n fresh s small a =
        turns-Balance ts n 0 (take_turn h program k.consume read s) small
          (read-Balance n fresh s (omega arith) a)

    -- A test from an empty ring.
    pub begin-turns-Balance :
        (ts : List Turn) (l : Loader) (st : State)
        → events ts < 2 ^ 31
        → c.count st ≡ 0
        → l.capture_enabled ≡ 1
        → l.n_elaborated ≡ 0
        → Balance (events ts) (since 0 ts) (take_turns h program k.consume ts (begin l st))
    begin-turns-Balance ts l st small none_wait on unread =
        subst (λ i. Balance i (since 0 ts) (take_turns h program k.consume ts (begin l st)))
          (omega arith)
          (turns-Balance ts 0 0 (begin l st) (omega arith) (begin-Balance l st none_wait on unread))

  -- What SIGINT has printed last, behind what was printed before: `n_drops` and then `n_elaborated`,
  -- which account for `k` events together with the skipped ones and those that wait, at most `fresh`.
  abbrev pub Prints : ℕ → ℕ → Session h × Outcome → Type 0
  Prints k fresh (s, captures l) = ⊥
  Prints k fresh (s, exits code l) =
      (a : Balance k fresh s) × (code ≡ pos 0)
      × (printed l.log ≡ (a.elaborated % 2 ^ 64) ∷ (a.drops % 2 ^ 64) ∷ printed s.loader.log)

  pub signal-Prints :
      (answers : Answers) (k fresh : ℕ) (s : Session h)
      → Balance k fresh s
      → Prints k fresh (s, signal_callback answers (at_signal s))
  unfolding signal_callback
  signal-Prints answers k fresh s a =
      let l = record (at_signal s) { capture_enabled = 0 } in
      let l2 = tell answers (print l.n_elaborated) (tell answers (print l.n_drops) l) in
      (
        a,
        refl,
        clean-printed answers l2
            ∙ ap₂ (λ n d. n ∷ d ∷ printed s.loader.log) a.n_elaborated a.n_drops,
      )

  pub single_signal-Prints :
      (answers : Answers) (k fresh : ℕ) (s : Session h)
      → Balance k fresh s
      → Prints k fresh (s, single_signal_callback answers (at_signal s))
  unfolding single_signal_callback
  single_signal-Prints answers k fresh s a =
      (a, refl, ap₂ (λ n d. n ∷ d ∷ printed s.loader.log) a.n_elaborated a.n_drops)
