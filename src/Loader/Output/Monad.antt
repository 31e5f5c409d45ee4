-- ===== src/Loader/Output/Monad.antt =====
-- Functions that return a bool, as do blocks on the globals: `none` is the return of false.
use bpf_ringbuf.Common.{Bool, true, false, Option, none, some}
use bpf_ringbuf.Loader.{Loader}

abbrev pub M : Type 0 → Type 0
M A = Loader → Option A × Loader

abbrev pub pure : {A : Type 0} → A → M A
pure a l = (some a, l)

abbrev pub continue : {A B : Type 0} → (A → M B) → Option A × Loader → Option B × Loader
continue f (none, l) = (none, l)
continue f (some a, l) = f a l

infixl 5 ◌>>=◌ ◌>>◌
abbrev pub ◌>>=◌ : {A B : Type 0} → M A → (A → M B) → M B
◌>>=◌ m f l = continue f (m l)

abbrev pub ◌>>◌ : {B : Type 0} → M (Unit {0}) → M B → M B
m >> k = m >>= λ _. k

abbrev pub get : M Loader
get l = (some l, l)

abbrev pub modify : (Loader → Loader) → M (Unit {0})
modify f l = (some tt, f l)

-- `if(!test) return false;`
abbrev pub require : Bool → M (Unit {0})
require true l = (some tt, l)
require false l = (none, l)
