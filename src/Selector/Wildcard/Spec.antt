-- ===== src/Selector/Wildcard/Spec.antt =====
-- What a text has to look like to match a wildcard pattern, with no search order in it.
use gentest.Base.{
  ℕ, ◌≡◌, refl, ◌≢◌, ◌⊎◌, inl, inr, ◌↔◌, true, [], ◌∷◌, Bytes, ◌==◌, arith, Bool-cases,
}
use gentest.Selector.Wildcard.{star, question, takes, only_stars}

pub data Matches : Bytes → Bytes → Type 0 where
  done : Matches [] []
  byte :
      {x c : ℕ} {p s : Bytes}
      → x ≢ star
      → (x ≡ question) ⊎ (x ≡ c)
      → Matches p s
      → Matches (x ∷ p) (c ∷ s)
  leave : {x : ℕ} {p s : Bytes} → x ≡ star → Matches p s → Matches (x ∷ p) s
  take : {x c : ℕ} {p s : Bytes} → x ≡ star → Matches (x ∷ p) s → Matches (x ∷ p) (c ∷ s)

-- A byte that the code takes is one of a match, also where a star takes a star.
pub takes_step : {x c : ℕ} {p s : Bytes} → takes x c ≡ true → Matches p s → Matches (x ∷ p) (c ∷ s)
unfolding takes
takes_step {x} {c} h d = elim (Bool-cases (x == star)) [
  | inl e ↦ let e' : x ≡ star = ground arith in take e' (leave e' d)
  | inr e ↦ byte (ground arith) (ground arith) d
]

pub byte_inv :
    {x c : ℕ} {p s : Bytes} → x ≢ star → Matches (x ∷ p) (c ∷ s) → (takes x c ≡ true) × Matches p s
unfolding takes
byte_inv n (byte m e d) = (ground arith, d)
byte_inv n (leave e d) = absurd (n e)
byte_inv n (take e d) = absurd (n e)

pub no_text : {x : ℕ} {p : Bytes} → x ≢ star → ¬ Matches (x ∷ p) []
no_text n (leave e d) = n e

pub star_at_end : {p : Bytes} → Matches (star ∷ p) [] → Matches p []
star_at_end (leave e d) = d

module _ {p : Bytes} where
  pub star_goes_on :
      {b : ℕ} {rest : Bytes}
      → ¬ Matches p (b ∷ rest)
      → Matches (star ∷ p) (b ∷ rest)
      → Matches (star ∷ p) rest
  star_goes_on stays (take e onward) = onward
  star_goes_on stays (leave e here) = absurd (stays here)
  star_goes_on stays (byte n e d) = absurd (n refl)

  pub two_stars : {s : Bytes} → Matches (star ∷ star ∷ p) s → Matches (star ∷ p) s
  two_stars (byte n e d) = absurd (n refl)
  two_stars (leave e d) = d
  two_stars (take e d) = take e (two_stars d)

  -- Wherever the byte `x` matches, what follows it begins later.
  pub drop_byte :
      {x c : ℕ} (s : Bytes) → x ≢ star → Matches (star ∷ x ∷ p) (c ∷ s) → Matches (star ∷ p) s
  drop_byte s n (byte m e d) = absurd (m refl)
  drop_byte s n (leave e d) = leave refl (byte_inv n d).1
  drop_byte [] n (take e d) = absurd (no_text n (star_at_end d))
  drop_byte (c ∷ s) n (take e d) = take refl (drop_byte s n d)

only_stars→Matches : (p : Bytes) → only_stars p ≡ true → Matches p []
unfolding only_stars
only_stars→Matches [] h = done
only_stars→Matches (x ∷ p) h = elim (Bool-cases (x == star)) [
  | inl e ↦ leave (ground arith) (only_stars→Matches p (rw e at h))
  | inr e ↦ cc (rw e at h)
]

Matches→only_stars : {p : Bytes} → Matches p [] → only_stars p ≡ true
unfolding only_stars
Matches→only_stars done = refl
Matches→only_stars (leave e d) = ground (arith, Matches→only_stars d)

pub only_stars_iff : (p : Bytes) → (only_stars p ≡ true) ↔ Matches p []
only_stars_iff p = (only_stars→Matches p, Matches→only_stars)
