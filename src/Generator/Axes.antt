-- ===== src/Generator/Axes.antt =====
-- `cartesian` of tools/src/axis_expander.hpp.
pub mod Product
use gentest.Base.{Bool, true, false, List, [], ◌∷◌, ◌++◌, if◌then◌else◌, is_empty}

module _ {T : Type 0} where
  -- The combination with each value of the axis.
  unfoldable pub extend : List T → List T → List (List T)
  extend acc [] = []
  extend acc (v ∷ axis) = (acc ++ v ∷ []) ∷ extend acc axis

  unfoldable pub next_combinations : List (List T) → List T → List (List T)
  unfolding extend
  next_combinations [] axis = []
  next_combinations (acc ∷ out) axis = extend acc axis ++ next_combinations out axis

  unfoldable pub expand_axes : List (List T) → List (List T) → List (List T)
  unfolding next_combinations
  expand_axes out [] = out
  expand_axes out (axis ∷ axes) = expand_axes (next_combinations out axis) axes

  unfoldable pub cartesian : List (List T) → List (List T)
  unfolding expand_axes
  cartesian [] = [] ∷ []
  cartesian (axis ∷ axes) =
      let out = expand_axes ([] ∷ []) (axis ∷ axes) in if is_empty out then [] ∷ [] else out
