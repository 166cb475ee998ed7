-- ===== src/Util/Unexpected.antt =====
-- util/unexpected/src/lib.rs: values that were not expected.
use Prim.Native.String.{String, ◌++◌}
use mm2_parity_ethereum.Base.{Option, none, some}
use mathlib.Core.Option

pub record Mismatch {ℓ} (T : Type ℓ) : Type ℓ where
  pub expected : T
  pub found : T

pub record OutOfBounds {ℓ} (T : Type ℓ) : Type ℓ where
  pub min : Option T
  pub max : Option T
  pub found : T

unfoldable pub map {ℓ κ} : {T : Type ℓ} {U : Type κ} → OutOfBounds T → (T → U) → OutOfBounds U
map e f = record { min = Option.map f e.min; max = Option.map f e.max; found = f e.found }

-- `Display`, where `show` displays the values.
module _ {ℓ} {T : Type ℓ} (show : T → String) where
  unfoldable pub display_mismatch : Mismatch T → String
  display_mismatch e = "Expected " ++ show e.expected ++ ", found " ++ show e.found

  unfoldable pub bounds_message : Option T → Option T → String
  bounds_message (some lo) (some hi) = "Min=" ++ show lo ++ ", Max=" ++ show hi
  bounds_message (some lo) none = "Min=" ++ show lo
  bounds_message none (some hi) = "Max=" ++ show hi
  bounds_message none none = ""

  unfoldable pub display_out_of_bounds : OutOfBounds T → String
  unfolding bounds_message
  display_out_of_bounds e =
      "Value " ++ show e.found ++ " out of bounds. " ++ bounds_message e.min e.max
