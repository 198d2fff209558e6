-- ===== src/Selector/Tags.antt =====
-- src/runner_tag_utils.h: tags compared without regard to ASCII case.
use gentest.Base.{
  ℕ, ◌+◌, ◌-◌, ◌≡◌, refl, ◌↔◌, Bool, true, false, not, ◌&&◌, List, [], ◌∷◌, map, Bytes, ◌==◌, leb,
  arith, if◌then◌else◌, length,
}
use gentest.Cases.{Case}

-- The `?:` of the loop: an ASCII capital becomes its small letter.
unfoldable pub lower : ℕ → ℕ
lower a = if leb b'A' a && leb a b'Z' then a - b'A' + b'a' else a

-- The loop from one index on, in both texts; it is entered with texts of one length.
unfoldable pub same_from : Bytes → Bytes → Bool
unfolding lower
same_from [] rhs = true
same_from (a ∷ lhs) [] = true
same_from (a ∷ lhs) (b ∷ rhs) =
    if a == b
    then same_from lhs rhs
    else if not (lower a == lower b)
    then false
    else same_from lhs rhs

unfoldable pub iequals_ascii : Bytes → Bytes → Bool
unfolding same_from
iequals_ascii lhs rhs = if not (length lhs == length rhs) then false else same_from lhs rhs

unfoldable pub has_tag : List Bytes → Bytes → Bool
has_tag [] tag = false
has_tag (candidate ∷ tags) tag = if iequals_ascii candidate tag then true else has_tag tags tag

unfoldable pub has_tag_ci : Case → Bytes → Bool
unfolding has_tag
has_tag_ci test tag = has_tag test.tags tag

same_from_iff :
    (lhs rhs : Bytes)
    → length lhs ≡ length rhs
    → (same_from lhs rhs ≡ true) ↔ (map lower lhs ≡ map lower rhs)
unfolding same_from
same_from_iff [] [] h = ground arith
same_from_iff [] (b ∷ rhs) h = absurd (omega arith)
same_from_iff (a ∷ lhs) [] h = absurd (omega arith)
same_from_iff (a ∷ lhs) (b ∷ rhs) h = ground (arith, same_from_iff lhs rhs (omega arith))

length-lower : (s t : Bytes) → map lower s ≡ map lower t → length s ≡ length t
length-lower [] [] h = refl
length-lower [] (b ∷ t) h = cc
length-lower (a ∷ s) [] h = cc
length-lower (a ∷ s) (b ∷ t) h = ground (arith, length-lower s t)

-- Two texts are equal for `iequals_ascii` exactly when they are equal with every ASCII capital made
-- small.
pub iequals_ascii_iff :
    (lhs rhs : Bytes) → (iequals_ascii lhs rhs ≡ true) ↔ (map lower lhs ≡ map lower rhs)
unfolding iequals_ascii
iequals_ascii_iff lhs rhs = ground (arith, same_from_iff lhs rhs, length-lower lhs rhs)
