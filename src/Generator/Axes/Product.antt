-- ===== src/Generator/Axes/Product.antt =====
-- The combinations against the product of the axes.
use mathlib.Core.List.{append_assoc, append-nil, map-append}
use gentest.Base.{◌≡◌, refl, sym, ap, ◌∙◌, List, [], ◌∷◌, ◌++◌, map, if◌then◌else◌, is_empty}
use gentest.Generator.Axes.{extend, next_combinations, expand_axes, cartesian}

module _ {T : Type 0} where
  -- Every value of an axis in front of every combination of the rest.
  abbrev pub with_each : List T → List (List T) → List (List T)
  with_each [] rest = []
  with_each (v ∷ axis) rest = map (λ c. v ∷ c) rest ++ with_each axis rest

  -- One value of each axis, in the order of the axes; the first axis changes last.
  abbrev pub product : List (List T) → List (List T)
  product [] = [] ∷ []
  product (axis ∷ axes) = with_each axis (product axes)

  -- Every combination followed by every one of the rest.
  abbrev followed : List (List T) → List (List T) → List (List T)
  followed [] rest = []
  followed (acc ∷ out) rest = map (λ c. acc ++ c) rest ++ followed out rest

  map-followed :
      (acc : List T) (v : T) (rest : List (List T))
      → map (λ c. (acc ++ v ∷ []) ++ c) rest ≡ map (λ c. acc ++ c) (map (λ c. v ∷ c) rest)
  map-followed acc v [] = refl
  map-followed acc v (c ∷ rest) =
      ap (λ h. h ∷ map (λ c. (acc ++ v ∷ []) ++ c) rest) (append_assoc acc (v ∷ []) c)
      ∙ ap (λ r. (acc ++ v ∷ c) ∷ r) (map-followed acc v rest)

  followed-append :
      (out out' rest : List (List T))
      → followed (out ++ out') rest ≡ followed out rest ++ followed out' rest
  followed-append [] out' rest = refl
  followed-append (acc ∷ out) out' rest =
      ap (λ r. map (λ c. acc ++ c) rest ++ r) (followed-append out out' rest)
      ∙ sym (append_assoc (map (λ c. acc ++ c) rest) (followed out rest) (followed out' rest))

  followed-extend :
      (acc axis : List T) (rest : List (List T))
      → followed (extend acc axis) rest ≡ map (λ c. acc ++ c) (with_each axis rest)
  unfolding extend
  followed-extend acc [] rest = refl
  followed-extend acc (v ∷ axis) rest =
      rw (map-followed acc v rest, followed-extend acc axis rest)
        (sym (map-append (λ c. acc ++ c) (map (λ c. v ∷ c) rest) (with_each axis rest)))

  followed-next_combinations :
      (out : List (List T)) (axis : List T) (rest : List (List T))
      → followed (next_combinations out axis) rest ≡ followed out (with_each axis rest)
  unfolding next_combinations
  followed-next_combinations [] axis rest = refl
  followed-next_combinations (acc ∷ out) axis rest =
      followed-append (extend acc axis) (next_combinations out axis) rest
      ∙ rw (followed-extend acc axis rest, followed-next_combinations out axis rest) refl

  followed-nothing : (out : List (List T)) → followed out ([] ∷ []) ≡ out
  followed-nothing [] = refl
  followed-nothing (acc ∷ out) = rw (append-nil acc, followed-nothing out) refl

  expand_axes-product :
      (axes out : List (List T)) → expand_axes out axes ≡ followed out (product axes)
  unfolding expand_axes
  expand_axes-product [] out = sym (followed-nothing out)
  expand_axes-product (axis ∷ axes) out =
      expand_axes-product axes (next_combinations out axis)
      ∙ followed-next_combinations out axis (product axes)

  followed-empty : (rest : List (List T)) → followed ([] ∷ []) rest ≡ rest
  followed-empty rest = append-nil (map (λ c. c) rest) ∙ same rest
    where
      same : (rest : List (List T)) → map (λ c. c) rest ≡ rest
      same [] = refl
      same (c ∷ rest) = ap (λ r. c ∷ r) (same rest)

  -- The combinations are the product of the axes, with one value of each axis in the order of the
  -- axes and the last axis changing first; but where an axis has no values, so that the product is
  -- empty, there is one combination, and it has no values.
  pub cartesian-product :
      (axes : List (List T))
      → cartesian axes ≡ (if is_empty (product axes) then [] ∷ [] else product axes)
  unfolding cartesian
  cartesian-product [] = refl
  cartesian-product (axis ∷ axes) =
      ap (λ out. if is_empty out then [] ∷ [] else out)
        (expand_axes-product (axis ∷ axes) ([] ∷ []) ∙ followed-empty (product (axis ∷ axes)))
