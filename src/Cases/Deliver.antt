-- ===== src/Cases/Deliver.antt =====
-- What the programs over one ring for each CPU deliver of the records that their rings hold when the
-- capture begins.
use bpf_ringbuf.Common.{ℕ, ◌*◌, ◌≤◌, ◌<◌, ◌≡◌, refl}
use bpf_ringbuf.Queue.{Queue}
use bpf_ringbuf.Queue.Committed.{Committed}
use bpf_ringbuf.Ring.{Ring}
use bpf_ringbuf.Reader.Refine.{Tracks}
use bpf_ringbuf.Rings.{Rings}
use bpf_ringbuf.Rings.Held.{waits}
use bpf_ringbuf.Rings.Deliver.{Full}
use bpf_ringbuf.Rings.ReadsAll.{calls_at_rest}
use bpf_ringbuf.Rings.Agree.{DeliversAll, cases-DeliversAll}
use bpf_ringbuf.Loader.{Loader, Answers, initial}
use bpf_ringbuf.Loader.Main.{captures, main}
use bpf_ringbuf.Loader.Account.Laws.{OnOutcome, main-OnOutcome}
use bpf_ringbuf.Loader.Capture.{first_rings, first_rings-IsValid}
use bpf_ringbuf.Cases.{Run, exited, looping, Captured, case1_main, case3_main, case4_main}
use bpf_ringbuf.Cases.Laws.{fresh_reader}

-- The program is in its capture loop, which has read every record.
abbrev pub Delivers : ℕ → Rings → (ℕ → Queue) → Run Captured → Type 0
Delivers cnt m waiting (exited code l) = ⊥
Delivers cnt m waiting (looping (l, o)) = DeliversAll cnt m waiting o

unread : (answers : Answers) (l : Loader) → main answers initial ≡ captures l → l.n_elaborated ≡ 0
unread answers l e =
    let o : OnOutcome answers (captures l) = rw e at (main-OnOutcome answers) in o.5

module _ (answers : Answers) (l : Loader) (rings : ℕ → Ring) (waiting : ℕ → Queue) where
  first_rings-Full :
      main answers initial ≡ captures l
      → ((i : ℕ)
          → i < (first_rings l rings).ring_cnt
          → Committed (waiting i) × Tracks (fresh_reader (rings i)) (waiting i))
      → Full (first_rings l rings).ring_cnt (first_rings l rings) waiting
  first_rings-Full e held = record {
    valid = first_rings-IsValid answers l rings e;
    count = refl;
    held = held;
  }

  -- When libbpf and the kernel let main come to its capture loop, and each ring holds a queue of
  -- committed records behind position 0 to which the kernel adds nothing, then for at least as many
  -- calls as records and two iterations for each ring in each call the whole programs of case 1,
  -- case 3 and case 4 come to the producer position of every ring and deliver of every ring the
  -- payloads of its records, every one once and in order; n_elaborated is their number modulo 2 ^ 64.
  pub cases-Deliver :
      (calls rounds : ℕ)
      → main answers initial ≡ captures l
      → let m = first_rings l rings in
        ((i : ℕ)
          → i < m.ring_cnt
          → Committed (waiting i) × Tracks (fresh_reader (rings i)) (waiting i))
        → waits m.ring_cnt waiting ≤ calls
        → 2 * m.ring_cnt ≤ rounds
        → Delivers m.ring_cnt m waiting (case1_main answers rings (calls_at_rest calls rounds))
          × Delivers m.ring_cnt m waiting (case3_main answers rings (calls_at_rest calls rounds))
          × Delivers m.ring_cnt m waiting (case4_main answers rings (calls_at_rest calls rounds))
  unfolding case1_main case3_main case4_main
  cases-Deliver calls rounds e held enough twice =
      let m = first_rings l rings in
      let (one, three, four) =
        cases-DeliversAll m.ring_cnt calls rounds m waiting (first_rings-Full e held) enough
          twice in
      rw (e, unread answers l e) (one, three, four)
