-- ===== src/Prelude/Arrays.antt =====
-- C arrays as functions from the index, with the store that changes one element.
use Prim.Native.Nat.{ℕ}
use tiny_linux_rv.Prelude.Tests.{◌==◌, if◌then◌else◌}

module _ {ℓ} {A : Type ℓ} where
  abbrev pub update : (ℕ → A) → ℕ → A → ℕ → A
  update f i v j = if j == i then v else f j
