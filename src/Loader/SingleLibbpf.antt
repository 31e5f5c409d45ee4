-- ===== src/Loader/SingleLibbpf.antt =====
-- single_ringbuf_reserve/case2.c up to its capture loop. A do block on the globals ends at
-- `return code;` and at `exit(code);`.
pub mod Same
use bpf_ringbuf.Common.{Bool, true, false, not}
use bpf_ringbuf.Loader.Int.{ℤ, pos, negsuc, same, is_zero, negate}
use bpf_ringbuf.Loader.{
  Call, Answers, Loader, ask, tell, set_print, setrlimit, set_signal, skel_open, skel_load,
  skel_attach, skel_destroy, map_fd, ring_buffer_new, print,
}
use bpf_ringbuf.Loader.Main.{Outcome, exits, captures}

pub data Step (A : Type 0) : Type 0 where
  left : ℤ → Loader → Step A
  went : A → Loader → Step A

abbrev pub M : Type 0 → Type 0
M A = Loader → Step A

abbrev pub continue : {A B : Type 0} → (A → M B) → Step A → Step B
continue f (left code l) = left code l
continue f (went a l) = f a l

infixl 5 ◌>>=◌ ◌>>◌
abbrev pub ◌>>=◌ : {A B : Type 0} → M A → (A → M B) → M B
◌>>=◌ m f l = continue f (m l)

abbrev pub ◌>>◌ : {B : Type 0} → M (Unit {0}) → M B → M B
m >> k = m >>= λ _. k

abbrev pub modify : (Loader → Loader) → M (Unit {0})
modify f l = went tt (f l)

-- `if(!test) return code;`
abbrev pub or_return : ℤ → Bool → M (Unit {0})
or_return code true l = went tt l
or_return code false l = left code l

module _ (answers : Answers) where
  abbrev pub call : Call → M ℤ
  call c l = let (a, l') = ask answers c l in went a l'

  abbrev pub call_void : Call → M (Unit {0})
  call_void c l = went tt (tell answers c l)

  unfoldable pub bump_memlock_rlimit : M (Unit {0})
  bump_memlock_rlimit = do err ← call setrlimit; or_return (pos 1) (is_zero err)

  -- `if(!test) goto cleanup;`, and `cleanup: ...destroy(skel); return -err;`
  abbrev pub or_cleanup : ℤ → Bool → M (Unit {0})
  or_cleanup err true l = went tt l
  or_cleanup err false l = left (negate err) (tell answers (skel_destroy l.skel) l)

  unfoldable pub set_up : M (Unit {0})
  set_up = do
    call_void set_print
    bump_memlock_rlimit
    old ← call set_signal
    or_return (pos 1) (not (same old (negsuc 0)))
    skel ← call skel_open
    modify (λ l. record l { skel = skel })
    or_return (pos 1) (not (is_zero skel))
    err ← call (skel_load skel)
    or_cleanup err (is_zero err)
    fd ← call map_fd
    rb ← call (ring_buffer_new fd)
    or_cleanup err (not (is_zero rb))
    modify (λ l. record l { ringbuf = rb })
    err' ← call (skel_attach skel)
    or_cleanup err' (is_zero err')
    modify (λ l. record l { capture_enabled = 1 })

  abbrev pub outcome : Step (Unit {0}) → Outcome
  outcome (left code l) = exits code l
  outcome (went u l) = captures l

  unfoldable pub main : Loader → Outcome
  main l = outcome (set_up l)

  unfoldable pub signal_callback : Loader → Outcome
  signal_callback l0 =
      let l1 = record l0 { capture_enabled = 0 } in
      let l2 = tell answers (print l1.n_drops) l1 in
      let l3 = tell answers (print l2.n_elaborated) l2 in
      exits (pos 0) (tell answers (skel_destroy l3.skel) l3)
