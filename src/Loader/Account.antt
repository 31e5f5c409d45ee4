-- ===== src/Loader/Account.antt =====
-- What a log of calls amounts to, by the documentation of the C library and of libbpf alone: which
-- resources the process holds, which rings the manager reads, and what the outer map contains.
pub mod Ends
pub mod Stage
pub mod Phases
pub mod Filling
pub mod Laws
use bpf_ringbuf.Common.{
  ℕ, ◌+◌, ◌||◌, ◌&&◌, Bool, true, false, not, List, [], ◌∷◌, ◌++◌, if◌then◌else◌, length,
}
use bpf_ringbuf.Loader.Int.{ℤ, negsuc, same, is_zero, is_negative, is_below_one, to_nat}
use bpf_ringbuf.Loader.{
  Call, Log, set_print, setrlimit, set_signal, skel_open, skel_load, skel_attach, skel_destroy,
  map_create, set_inner_map_fd, map_fd, map_update_elem, close, num_possible_cpus, calloc, free,
  ring_buffer_new, ring_buffer_add, ring_buffer_free, ring_buffer_consume, print,
}

-- `ok` says that no call failed. `skels`, `managers` and `arrays` are the pointers to release, `fds`
-- the descriptors of ring buffers to close. `managed` are the ring buffers that the manager was
-- given, the latest first, `entries` the keys and values put into the outer map. `consumed` is
-- the number of records that `ring_buffer__consume` has reported.
pub record Account : Type 0 where
  pub ok : Bool
  pub skels : List ℤ
  pub managers : List ℤ
  pub arrays : List ℤ
  pub fds : List ℤ
  pub managed : List ℤ
  pub entries : List (ℕ × ℤ)
  pub consumed : ℕ

-- A pointer that is not NULL, as a list.
abbrev pub present : ℤ → List ℤ
present p = if is_zero p then [] else p ∷ []

-- One occurrence taken off; what is not held changes nothing, as NULL does.
abbrev pub drop_one : ℤ → List ℤ → List ℤ
drop_one p [] = []
drop_one p (q ∷ qs) = if same p q then qs else q ∷ drop_one p qs

abbrev pub checked : Bool → Account → Account
checked b t = record t { ok = b && t.ok }

abbrev pub add_if {ℓ} : {A : Type ℓ} → Bool → A → List A → List A
add_if b a l = if b then a ∷ l else l

-- The effect of one call with its answer.
abbrev pub after_call : Call → ℤ → Account → Account
after_call set_print a t = t
after_call setrlimit a t = checked (is_zero a) t
after_call set_signal a t = checked (not (same a (negsuc 0))) t
after_call skel_open a t = checked (not (is_zero a)) (record t { skels = present a ++ t.skels })
after_call (skel_load p) a t = checked (is_zero a) t
after_call (skel_attach p) a t = checked (is_zero a) t
after_call (skel_destroy p) a t = record t { skels = drop_one p t.skels }
after_call map_create a t =
    checked (not (is_negative a)) (record t { fds = add_if (not (is_negative a)) a t.fds })
after_call (set_inner_map_fd fd) a t = checked (is_zero a) t
after_call map_fd a t = checked (not (is_negative a)) t
after_call (map_update_elem m i fd) a t =
    checked (is_zero a) (record t { entries = add_if (is_zero a) (i, fd) t.entries })
after_call (close fd) a t = record t { fds = drop_one fd t.fds }
after_call num_possible_cpus a t = checked (not (is_below_one a)) t
after_call (calloc n) a t = checked (not (is_zero a)) (record t { arrays = present a ++ t.arrays })
after_call (free p) a t = record t { arrays = if is_zero p then t.arrays else drop_one p t.arrays }
after_call (ring_buffer_new fd) a t = checked (not (is_zero a)) (record t {
  managers = present a ++ t.managers;
  managed = add_if (not (is_zero a)) fd t.managed;
})
after_call (ring_buffer_add rb fd) a t =
    checked (is_zero a) (record t { managed = add_if (is_zero a) fd t.managed })
after_call (ring_buffer_free p) a t = record t { managers = drop_one p t.managers }
after_call (ring_buffer_consume p) a t = record t { consumed = t.consumed + to_nat a }
after_call (print n) a t = t

abbrev pub nothing : Account
nothing = record {
  ok = true;
  skels = [];
  managers = [];
  arrays = [];
  fds = [];
  managed = [];
  entries = [];
  consumed = 0;
}

abbrev pub account : Log → Account
account [] = nothing
account ((c, a) ∷ log) = after_call c a (account log)

-- Each ring at the index under which the manager has it: `length fds` rings came before `fd`.
abbrev pub number : List ℤ → List (ℕ × ℤ)
number [] = []
number (fd ∷ fds) = (length fds, fd) ∷ number fds
