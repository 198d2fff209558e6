-- ===== src/Generator/Validate/Positive.antt =====
-- `parse_positive_u64` of tools/src/validate.cpp.
use gentest.Base.{
  ℕ, ◌+◌, ◌-◌, ◌*◌, ◌/◌, ◌≤◌, ◌≡◌, refl, ◌↔◌, false, ◌||◌, Option, none, some, [], ◌∷◌, Bytes, ◌==◌,
  ltb, arith, if◌then◌else◌, Bool-cases, inl, inr,
}
use gentest.Cli.Decimal.{u64_max, digits_loop, ok, Reads, parse_u64_decimal_strict, parse_u64_iff}

-- The loop; none is `false`.
unfoldable pub positive_loop : ℕ → Bytes → Option ℕ
positive_loop value [] = some value
positive_loop value (ch ∷ text) =
    if ltb ch b'0' || ltb b'9' ch
    then none
    else if ltb ((u64_max - (ch - b'0')) / 10) value
    then none
    else positive_loop (value * 10 + (ch - b'0')) text

abbrev pub unless_zero : Option ℕ → Option ℕ
unless_zero none = none
unless_zero (some value) = if value == 0 then none else some value

-- The number that is written to `out`, or none for `false`.
unfoldable pub parse_positive_u64 : Bytes → Option ℕ
unfolding positive_loop
parse_positive_u64 [] = none
parse_positive_u64 (ch ∷ []) = unless_zero (positive_loop 0 (ch ∷ []))
parse_positive_u64 (ch ∷ d ∷ text) =
    if ch == b'0' then none else unless_zero (positive_loop 0 (ch ∷ d ∷ text))

-- No leading zero, unless the text has one character.
abbrev pub NoZero : Bytes → Type 0
NoZero [] = Unit
NoZero (ch ∷ []) = Unit
NoZero (ch ∷ d ∷ text) = (ch == b'0') ≡ false

-- Both parsers of the program have the same loop.
positive_loop_iff :
    (v : ℕ) (s : Bytes) (w : ℕ)
    → (positive_loop v s ≡ some w) ↔ (digits_loop v s ≡ record { value = w; status = ok })
unfolding positive_loop digits_loop
positive_loop_iff v [] w = ((λ e. cc), (λ e. cc))
positive_loop_iff v (ch ∷ s) w = ground (arith, positive_loop_iff (v * 10 + (ch - b'0')) s w)

-- A text that reads as a positive number of 64 bits, without leading zeros.
abbrev pub ReadsPositive : Bytes → ℕ → Type 0
ReadsPositive s v = Reads s v × NoZero s × (1 ≤ v)

unless_zero_iff :
    (found : Option ℕ) (v : ℕ) → (unless_zero found ≡ some v) ↔ ((found ≡ some v) × (1 ≤ v))
unless_zero_iff none v = ground arith
unless_zero_iff (some value) v = ground arith

loop_iff :
    (ch : ℕ) (s : Bytes) (v : ℕ)
    → (unless_zero (positive_loop 0 (ch ∷ s)) ≡ some v) ↔ (Reads (ch ∷ s) v × (1 ≤ v))
unfolding parse_u64_decimal_strict
loop_iff ch s v =
    let positive = unless_zero_iff (positive_loop 0 (ch ∷ s)) v in
    let same = positive_loop_iff 0 (ch ∷ s) v in
    let strict = parse_u64_iff (ch ∷ s) v in
    (
      λ e. (strict.0 (same.0 (positive.0 e).0), (positive.0 e).1),
      λ r. positive.1 (same.1 (strict.1 r.0), r.1),
    )

-- The parser of item counts accepts exactly the texts of decimal digits that have no leading zero and
-- whose number is positive and fits in 64 bits, and returns that number.
pub parse_positive_u64_iff :
    (s : Bytes) (v : ℕ) → (parse_positive_u64 s ≡ some v) ↔ ReadsPositive s v
unfolding parse_positive_u64
parse_positive_u64_iff [] v = (λ e. absurd (cc), λ r. absurd (r.0.0 refl))
parse_positive_u64_iff (ch ∷ []) v =
    let h = loop_iff ch [] v in (λ e. ((h.0 e).0, tt, (h.0 e).1), λ r. h.1 (r.0, r.2))
parse_positive_u64_iff (ch ∷ d ∷ s) v = elim (Bool-cases (ch == b'0')) [
  | inl e ↦ ((λ q. absurd (ground (arith, rw e at q))), λ r. absurd (ground (arith, e, r.1)))
  | inr e ↦
      let h = loop_iff ch (d ∷ s) v in
      rw e ((λ q. ((h.0 q).0, refl, (h.0 q).1)), λ r. h.1 (r.0, r.2))
]
