-- ===== src/Base/Update.antt =====
-- An array or a store as a function, with one place written.
use Prim.Native.Nat.{ℕ}
use mathlib.Core.Path.{◌≡◌, refl}
use mathlib.Core.Logic.{◌≢◌}
use oh_my_os.Base.Tests.{◌==◌, if◌then◌else◌, eq→==, ne→==}

module _ {ℓ} {A : Type ℓ} where
  abbrev pub update : (ℕ → A) → ℕ → A → ℕ → A
  update f i v k = if k == i then v else f k

  pub update_ne : (f : ℕ → A) (i : ℕ) (v : A) (k : ℕ) → k ≢ i → update f i v k ≡ f k
  update_ne f i v k h = rw (ne→== k i h) refl

  pub update_self : (f : ℕ → A) (i : ℕ) (v : A) → update f i v i ≡ v
  update_self f i v = rw (eq→== i i refl) refl
