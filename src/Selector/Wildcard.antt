-- ===== src/Selector/Wildcard.antt =====
-- `wildcard_match` of src/runner_selector.cpp. A cursor into a text is the text from there on:
-- `text` from `ti`, `pattern` from `pi`; `star` and `mark`, once set, are `pattern` from `star + 1`
-- and `text` from `mark`.
pub mod Spec
pub mod Loop
use mathlib.Core.List.{tail}
use gentest.Base.{
  ℕ, zero, suc, ◌+◌, ◌*◌, Bool, true, false, ◌||◌, Option, none, some, List, [], ◌∷◌, Bytes, ◌==◌,
  if◌then◌else◌, length,
}

abbrev pub star : ℕ
star = b'*'

abbrev pub question : ℕ
question = b'?'

-- `star` and `mark`; `none` while `star` is npos.
abbrev pub Back : Type 0
Back = Option (Bytes × Bytes)

-- pattern[pi] == '?' || pattern[pi] == text[ti]
unfoldable pub takes : ℕ → ℕ → Bool
takes x c = (x == question) || (x == c)

-- The loop after the text.
unfoldable pub only_stars : Bytes → Bool
only_stars [] = true
only_stars (x ∷ p) = if x == star then only_stars p else false

-- The last two branches of the loop.
unfoldable pub retry : Back → (Bytes → Bytes → Back → Option Bool) → Option Bool
retry none next = some false
retry (some (bp, bs)) next = next (tail bs) bp (some (bp, tail bs))

-- `none` is a run out of fuel.
unfoldable pub loop : ℕ → Bytes → Bytes → Back → Option Bool
loop f [] p back = some (only_stars p)
loop zero (c ∷ s) p back = none
loop (suc f) (c ∷ s) [] back = retry back (loop f)
loop (suc f) (c ∷ s) (x ∷ p) back =
    let onward = loop f s p back in
    let starred = loop f (c ∷ s) p (some (p, c ∷ s)) in
    let again = retry back (loop f) in
    if takes x c then onward else if x == star then starred else again

unfoldable pub wildcard_match : Bytes → Bytes → Option Bool
unfolding loop retry takes only_stars
wildcard_match text pattern = loop ((length text + 1) * (length pattern + 1)) text pattern none
