-- ===== src/Rings/Sticky/Waits.antt =====
-- multi_ringbuf_reserve/case3.c and case4.c in front of a busy record.
use bpf_ringbuf.Common.{
  ℕ, ◌<◌, ◌≡◌, refl, List, [], ◌∷◌, Bool, true, false, none, some, arith, leb, ltb,
}
use bpf_ringbuf.Header.{is_busy}
use bpf_ringbuf.Ring.{Ring}
use bpf_ringbuf.Ring.Chain.{Kernel, header_at}
use bpf_ringbuf.Reader.{Reader, take_record}
use bpf_ringbuf.Rings.{Rings, in_range, reader, store, Round, after_kernel, running}
use bpf_ringbuf.Rings
use bpf_ringbuf.Rings.Progress.{IsValid}
use bpf_ringbuf.Rings.Store.{IsValid-in_range, reader-store}
use bpf_ringbuf.Rings.Sticky.{read, visit, process_one_from_ring, consume_one}

-- The record at position `p` of ring `i` stays busy in every round.
abbrev pub StaysBusy : ℕ → ℕ → List Round → Type 0
StaysBusy i p [] = Unit
StaysBusy i p (w ∷ ws) =
    ((r : Ring)
      → is_busy (header_at r p) ≡ true
      → is_busy (header_at ((w.before i).act r) p) ≡ true)
    × ((r : Ring) → is_busy (header_at r p) ≡ true → is_busy (header_at (w.late.act r) p) ≡ true)
    × StaysBusy i p ws

-- The reader stands at position `p`, and knows of a record there, which is busy.
pub record Waits (s : Reader) (p : ℕ) : Type 0 where
  pub position : s.cons_pos ≡ p
  pub known : p < s.prod_pos
  pub busy : is_busy (header_at s.ring p) ≡ true

visit-Waits :
    (each : Bool) (late : Kernel) (s : Reader) (p : ℕ)
    → Waits s p
    → is_busy (header_at (late.act s.ring) p) ≡ true
    → visit each late s ≡ (false, none, record s { ring = late.act s.ring })
unfolding visit read take_record
visit-Waits each late s p h busy =
    let e : leb s.prod_pos s.cons_pos ≡ false = ground arith in
    let e' : ltb s.cons_pos s.prod_pos ≡ true = ground arith in
    let b : is_busy (header_at (late.act s.ring) s.cons_pos) ≡ true = rw h.position busy in
    rw (e, e', b)

-- The rings after an iteration that waits.
abbrev waited : Kernel → Rings → Rings
waited late m =
    let i = m.ringbuf_pos in store m i (record (reader m i) { ring = late.act (m.rings i) })

process-Waits :
    (each : Bool) (late : Kernel) (m : Rings) (p : ℕ)
    → IsValid m
    → Waits (reader m m.ringbuf_pos) p
    → is_busy (header_at (late.act (m.rings m.ringbuf_pos)) p) ≡ true
    → process_one_from_ring each late m ≡ some (none, waited late m)
unfolding process_one_from_ring
process-Waits each late m p v h busy =
    rw (visit-Waits each late (reader m m.ringbuf_pos) p h busy, IsValid-in_range m v)

-- While the record at which the reader stands stays busy, a call of case 3 or case 4 does not
-- return and does not look at another ring, however long it runs and whatever the other rings hold.
pub consume_one-Waits :
    (each : Bool) (ws : List Round) (m : Rings) (i p : ℕ)
    → IsValid m
    → m.ringbuf_pos ≡ i
    → Waits (reader m i) p
    → StaysBusy i p ws
    → (m' : Rings) × (consume_one each ws m ≡ running m') × (m'.ringbuf_pos ≡ i)
unfolding consume_one Rings.consume_one
consume_one-Waits each [] m i p v e h stays = (m, refl, e)
consume_one-Waits each (w ∷ ws) m i p v e h (before, late, stays) =
    let m1 = after_kernel w m in
    let busy = before (m.rings i) h.busy in
    let h1 : Waits (reader m1 i) p = record {
      position = h.position;
      known = h.known;
      busy = busy;
    } in
    let v1 : IsValid m1 = record { current = v.current; allocated = v.allocated } in
    let busy' = late (m1.rings i) busy in
    let step = process-Waits each w.late m1 p v1 (rw e h1) (rw e busy') in
    rw step (
      consume_one-Waits each ws (waited w.late m1) i p
        (record { current = v.current; allocated = v.allocated }) e
        (rw (e, reader-store m1 i (record (reader m1 i) { ring = w.late.act (m1.rings i) }))
          (record { position = h.position; known = h.known; busy = busy' }))
        stays)
