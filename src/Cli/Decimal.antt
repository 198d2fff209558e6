-- ===== src/Cli/Decimal.antt =====
-- `parse_u64_decimal_strict` of src/runner_cli.cpp. A `char` is a byte: one that the code sees as
-- negative is above '9' here, and no digit either way.
use gentest.Base.{
  ℕ, ◌+◌, ◌-◌, ◌*◌, ◌/◌, ◌^◌, ◌≤◌, ◌≡◌, refl, sym, ap, ◌∙◌, ◌≢◌, ◌↔◌, ◌||◌, [], ◌∷◌, Bytes, ltb,
  arith, if◌then◌else◌, All,
}

pub data ParseU64DecimalStatus : Type 0 where
  ok empty non_decimal overflow : ParseU64DecimalStatus

pub record ParseU64DecimalResult : Type 0 where
  pub value : ℕ
  pub status : ParseU64DecimalStatus

abbrev pub u64_max : ℕ
u64_max = 2 ^ 64 - 1

unfoldable pub digits_loop : ℕ → Bytes → ParseU64DecimalResult
digits_loop v [] = record { value = v; status = ok }
digits_loop v (ch ∷ s) =
    if ltb ch b'0' || ltb b'9' ch
    then record { value = 0; status = non_decimal }
    else if ltb ((u64_max - (ch - b'0')) / 10) v
    then record { value = 0; status = overflow }
    else digits_loop (v * 10 + (ch - b'0')) s

unfoldable pub parse_u64_decimal_strict : Bytes → ParseU64DecimalResult
unfolding digits_loop
parse_u64_decimal_strict [] = record { value = 0; status = empty }
parse_u64_decimal_strict (ch ∷ s) = digits_loop 0 (ch ∷ s)

abbrev pub IsDigit : ℕ → Type 0
IsDigit ch = (b'0' ≤ ch) × (ch ≤ b'9')

-- The number that digits stand for, behind those already read.
abbrev pub decimal : ℕ → Bytes → ℕ
decimal v [] = v
decimal v (ch ∷ s) = decimal (v * 10 + (ch - b'0')) s

-- What a text has to be for its value.
abbrev pub Reads : Bytes → ℕ → Type 0
Reads s v = (s ≢ []) × All IsDigit s × (decimal 0 s ≡ v) × (v ≤ u64_max)

decimal-ge : (v : ℕ) (s : Bytes) → v ≤ decimal v s
decimal-ge v [] = omega arith
decimal-ge v (ch ∷ s) = omega (arith, decimal-ge (v * 10 + (ch - b'0')) s)

digits_loop_sound :
    (v : ℕ) (s : Bytes)
    → v ≤ u64_max
    → (digits_loop v s).status ≡ ok
    → All IsDigit s × ((digits_loop v s).value ≡ decimal v s) × (decimal v s ≤ u64_max)
unfolding digits_loop
digits_loop_sound v [] h e = (tt, refl, h)
digits_loop_sound v (ch ∷ s) h e = ground (arith, digits_loop_sound (v * 10 + (ch - b'0')) s)

digits_loop_complete :
    (v : ℕ) (s : Bytes)
    → All IsDigit s
    → decimal v s ≤ u64_max
    → digits_loop v s ≡ record { value = decimal v s; status = ok }
unfolding digits_loop
digits_loop_complete v [] a h = refl
digits_loop_complete v (ch ∷ s) a h =
    ground
      (arith, decimal-ge (v * 10 + (ch - b'0')) s, digits_loop_complete (v * 10 + (ch - b'0')) s)

digits_loop_iff :
    (s : Bytes) (v : ℕ)
    → (digits_loop 0 s ≡ record { value = v; status = ok })
      ↔ (All IsDigit s × (decimal 0 s ≡ v) × (v ≤ u64_max))
digits_loop_iff s v = (only_if, if_so)
  where
    only_if :
        digits_loop 0 s ≡ record { value = v; status = ok }
        → All IsDigit s × (decimal 0 s ≡ v) × (v ≤ u64_max)
    only_if e =
        let (digits, same, fits) = digits_loop_sound 0 s (omega arith) (ap (λ r. r.status) e) in
        let same' : decimal 0 s ≡ v = sym same ∙ ap (λ r. r.value) e in
        (digits, same', rw same' at fits)

    if_so :
        All IsDigit s × (decimal 0 s ≡ v) × (v ≤ u64_max)
        → digits_loop 0 s ≡ record { value = v; status = ok }
    if_so (digits, same, fits) =
        digits_loop_complete 0 s digits (rw same fits)
        ∙ ap (λ n. record { value = n; status = ok }) same

-- The parser accepts exactly the non-empty texts of decimal digits whose number fits in 64 bits, and
-- returns that number.
pub parse_u64_iff :
    (s : Bytes) (v : ℕ)
    → (parse_u64_decimal_strict s ≡ record { value = v; status = ok }) ↔ Reads s v
unfolding parse_u64_decimal_strict
parse_u64_iff [] v = (λ e. absurd (cc), λ r. absurd (r.0 refl))
parse_u64_iff (ch ∷ s) v =
    let h = digits_loop_iff (ch ∷ s) v in
    (λ e. (λ f. cc, (h.0 e).0, (h.0 e).1, (h.0 e).2), λ r. h.1 (r.1, r.2, r.3))
