-- ===== src/Prelude/Lock.antt =====
-- `std::sync::Mutex` and `RwLock`: a value, and the flag that a panic of a holder leaves.
use mathlib.Core.Bool.{Bool, false}
use allegro.Prelude.Tests.{if◌then◌else◌}

pub record Lock {ℓ} (A : Type ℓ) : Type ℓ where
  pub contents : A
  pub poisoned : Bool

abbrev pub new_lock {ℓ} : {A : Type ℓ} → A → Lock A
new_lock a = record { contents = a; poisoned = false }

-- A write through the guard; if the lock is poisoned, every caller in the source logs and goes on.
abbrev pub write_guard {ℓ} : {A : Type ℓ} → (A → A) → Lock A → Lock A
write_guard f l = if l.poisoned then l else record l { contents = f l.contents }
