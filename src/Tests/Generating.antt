-- ===== src/Tests/Generating.antt =====
-- The generator's text and list functions at small inputs.
use gentest.Base.{ℕ, ◌≡◌, refl, List, [], ◌∷◌, if◌then◌else◌, is_empty}
use gentest.Generator.Axes.{cartesian}
use gentest.Generator.Axes.Product.{product, cartesian-product}

abbrev sizes : List (List ℕ)
sizes = (1 ∷ 2 ∷ []) ∷ (7 ∷ 8 ∷ []) ∷ []

cartesian-product_example :
    cartesian sizes ≡ (if is_empty (product sizes) then [] ∷ [] else product sizes)
cartesian-product_example = cartesian-product sizes

all_pairs : cartesian sizes ≡ (1 ∷ 7 ∷ []) ∷ (1 ∷ 8 ∷ []) ∷ (2 ∷ 7 ∷ []) ∷ (2 ∷ 8 ∷ []) ∷ []
unfolding cartesian
all_pairs = refl

-- An axis without values.
no_values : cartesian {T = ℕ} ((1 ∷ 2 ∷ []) ∷ [] ∷ []) ≡ [] ∷ []
unfolding cartesian
no_values = refl
