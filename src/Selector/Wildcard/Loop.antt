-- ===== src/Selector/Wildcard/Loop.antt =====
-- The loop of `wildcard_match` against `Matches`.
use gentest.Base.{
  ℕ, zero, suc, ◌+◌, ◌*◌, ◌≤◌, ◌<◌, ◌≡◌, refl, ◌≢◌, inl, inr, ◌↔◌, Bool, true, false, Option, none,
  some, [], ◌∷◌, Bytes, ◌==◌, arith, Bool-cases, length, All,
}
use gentest.Selector.Wildcard.{star, Back, takes, only_stars, retry, loop, wildcard_match}
use gentest.Selector.Wildcard.Spec.{
  Matches, leave, take, takes_step, byte_inv, star_at_end, star_goes_on, two_stars, drop_byte,
  only_stars_iff,
}

-- No byte of the text is a star.
abbrev pub Starless : Bytes → Type 0
Starless = All (λ c. c ≢ star)

-- The run ended; its answer "yes" is right about `G`, and its answer "no" is right under `S`.
abbrev pub Decides : Type 0 → Type 0 → Option Bool → Type 0
Decides S G (some true) = G
Decides S G (some false) = S → ¬ G
Decides S G none = ⊥

-- Where a match has to begin: here while no star is saved, and else at the saved star.
abbrev Saved : Type 0 → Type 0 → Bytes → Bytes → Back → Type 0
Saved S G p s none = S → G → Matches p s
Saved S G p s (some (bp, bs)) =
    (S → G → Matches (star ∷ bp) bs)
    × (Matches (star ∷ bp) bs → G)
    × (S → Matches bp bs → Matches p s)
    × (S → Starless bs)

-- `m` bounds the text from the mark on, and `k` every pattern in play.
abbrev Room : ℕ → ℕ → Bytes → Back → Type 0
Room m k s none = length s ≤ m
Room m k s (some (bp, bs)) = (length s ≤ length bs) × (length bs ≤ m) × (length bp < k)

record Inv (S G : Type 0) (k m f : ℕ) (p s : Bytes) (back : Back) : Type 0 where
  now : Matches p s → G
  later : S → G → Matches (star ∷ p) s
  saved : Saved S G p s back
  starless : S → Starless s
  room : Room m k s back
  short : length p < k
  fuel : m * k + length p < f

ne_star : {x c : ℕ} → takes x c ≡ true → c ≢ star → x ≢ star
unfolding takes
ne_star h n = ground arith

ok-Decides :
    {S G : Type 0} (b : Bool) → ((b ≡ true) → G) → (S → G → b ≡ true) → Decides S G (some b)
ok-Decides true sound complete = sound refl
ok-Decides false sound complete = λ a g. cc (complete a g)

module _ {S G : Type 0} {k : ℕ} where
  -- After a star is read, the search goes on from it.
  star_step :
      {m f c : ℕ} {p s : Bytes} {back : Back}
      → Inv S G k m (suc f) (star ∷ p) (c ∷ s) back
      → Inv S G k m f p (c ∷ s) (some (p, c ∷ s))
  star_step {back = none} i = record {
    now = λ d. i.now (leave refl d);
    later = λ h g. two_stars (i.later h g);
    saved = (λ h g. two_stars (i.later h g), i.now, λ h d. d, i.starless);
    starless = i.starless;
    room = (omega arith, i.room, omega (arith, i.short));
    short = omega (arith, i.short);
    fuel = omega (arith, i.fuel);
  }
  star_step {back = some (bp, bs)} i = record {
    now = λ d. i.now (leave refl d);
    later = λ h g. two_stars (i.later h g);
    saved = (λ h g. two_stars (i.later h g), i.now, λ h d. d, i.starless);
    starless = i.starless;
    room = (omega arith, omega (arith, i.room.0, i.room.1), omega (arith, i.short));
    short = omega (arith, i.short);
    fuel = omega (arith, i.fuel);
  }

  byte_step :
      {m f x c : ℕ} {p s : Bytes} (back : Back)
      → takes x c ≡ true
      → Inv S G k m (suc f) (x ∷ p) (c ∷ s) back
      → Inv S G k m f p s back
  byte_step {s = s} none h i = record {
    now = λ d. i.now (takes_step h d);
    later = λ a g. drop_byte s (ne_star h (i.starless a).0) (i.later a g);
    saved = λ a g. (byte_inv (ne_star h (i.starless a).0) (i.saved a g)).1;
    starless = λ a. (i.starless a).1;
    room = omega (arith, i.room);
    short = omega (arith, i.short);
    fuel = omega (arith, i.fuel);
  }
  byte_step {s = s} (some (bp, bs)) h i = record {
    now = λ d. i.now (takes_step h d);
    later = λ a g. drop_byte s (ne_star h (i.starless a).0) (i.later a g);
    saved = (
      i.saved.0,
      i.saved.1,
      λ a d. (byte_inv (ne_star h (i.starless a).0) (i.saved.2 a d)).1,
      i.saved.3,
    );
    starless = λ a. (i.starless a).1;
    room = (omega (arith, i.room.0), i.room.1, i.room.2);
    short = omega (arith, i.short);
    fuel = omega (arith, i.fuel);
  }

  -- The saved star takes one more byte.
  again_step :
      {m f c b : ℕ} {p s bp bs : Bytes}
      → (S → ¬ Matches p (c ∷ s))
      → Inv S G k (suc m) (suc f) p (c ∷ s) (some (bp, b ∷ bs))
      → Inv S G k m f bp bs (some (bp, bs))
  again_step {m} {b = b} {bp = bp} {bs = bs} no_match i = record {
    now = λ d. i.saved.1 (take refl (leave refl d));
    later = λ a g. onward a g;
    saved = (onward, λ d. i.saved.1 (take refl d), λ a d. d, λ a. (i.saved.3 a).1);
    starless = λ a. (i.saved.3 a).1;
    room = (omega arith, omega (arith, i.room.1), i.room.2);
    short = i.room.2;
    fuel = grind (arith, i.fuel, i.room.2);
  }
    where
      onward : S → G → Matches (star ∷ bp) bs
      onward a g = star_goes_on (λ d. no_match a (i.saved.2 a d)) (i.saved.0 a g)

  retry-Decides :
      (f m c : ℕ) (p s : Bytes) (back : Back) (next : Bytes → Bytes → Back → Option Bool)
      → ((m : ℕ) (p s : Bytes) (back : Back) → Inv S G k m f p s back → Decides S G (next s p back))
      → (S → ¬ Matches p (c ∷ s))
      → Inv S G k m (suc f) p (c ∷ s) back
      → Decides S G (retry back next)
  unfolding retry
  retry-Decides f m c p s none next ih no_match i = λ a g. no_match a (i.saved a g)
  retry-Decides f m c p s (some (bp, [])) next ih no_match i = absurd (omega (arith, i.room.0))
  retry-Decides f zero c p s (some (bp, b ∷ bs)) next ih no_match i =
      absurd (omega (arith, i.room.1))
  retry-Decides f (suc m) c p s (some (bp, b ∷ bs)) next ih no_match i =
      ih m bp bs (some (bp, bs)) (again_step no_match i)

  loop-Decides :
      (f m : ℕ) (p s : Bytes) (back : Back) → Inv S G k m f p s back → Decides S G (loop f s p back)
  unfolding loop
  loop-Decides zero m p s back i = absurd (omega (arith, i.fuel))
  loop-Decides (suc f) m p [] back i =
      let (sound, complete) = only_stars_iff p in
      ok-Decides (only_stars p) (λ h. i.now (sound h)) λ a g. complete (star_at_end (i.later a g))
  loop-Decides (suc f) m [] (c ∷ s) back i =
      retry-Decides f m c [] s back (loop f) (loop-Decides f) (λ a d. elim d [ ]) i
  loop-Decides (suc f) m (x ∷ p) (c ∷ s) back i = elim (Bool-cases (takes x c)) [
    | inl h ↦ rw h (loop-Decides f m p s back (byte_step back h i))
    | inr h ↦ elim (Bool-cases (x == star)) [
      | inl e ↦
          let e' : x ≡ star = ground arith in
          rw (h, e) (loop-Decides f m p (c ∷ s) (some (p, c ∷ s)) (star_step (rw e' at i)))
      | inr e ↦
          rw (h, e)
            (retry-Decides f m c (x ∷ p) s back (loop f) (loop-Decides f)
              (λ a d. cc (byte_inv {x = x} (ground arith) d).0) i)
    ]
  ]

-- The match stops within its fuel; a "yes" is right for every text, and a "no" for every text with
-- no star in it.
pub wildcard_match-Decides :
    (text pattern : Bytes)
    → Decides (Starless text) (Matches pattern text) (wildcard_match text pattern)
unfolding wildcard_match
wildcard_match-Decides text pattern =
    loop-Decides {k = length pattern + 1} _ (length text) pattern text none (record {
      now = λ d. d;
      later = λ a g. leave refl g;
      saved = λ a g. g;
      starless = λ a. a;
      room = omega arith;
      short = omega arith;
      fuel = omega arith;
    })

-- A text without a star is matched exactly when it has the pattern's shape.
pub wildcard_match_iff :
    (text pattern : Bytes)
    → Starless text
    → (wildcard_match text pattern ≡ some true) ↔ Matches pattern text
wildcard_match_iff text pattern plain =
    (λ e. rw e at (wildcard_match-Decides text pattern), only_if (wildcard_match text pattern) refl)
  where
    only_if :
        (r : Option Bool)
        → wildcard_match text pattern ≡ r
        → Matches pattern text
        → wildcard_match text pattern ≡ some true
    only_if (some true) e g = e
    only_if (some false) e g = absurd ((rw e at (wildcard_match-Decides text pattern)) plain g)
    only_if none e g = absurd (rw e at (wildcard_match-Decides text pattern))

-- On a text without a star the match ends within its fuel, and its answer is yes exactly when the
-- text has the pattern's shape.
pub wildcard_match_lem :
    (text pattern : Bytes)
    → Starless text
    → (b : Bool) × (wildcard_match text pattern ≡ some b) × ((b ≡ true) ↔ Matches pattern text)
wildcard_match_lem text pattern plain = answer (wildcard_match text pattern) refl
  where
    answer :
        (r : Option Bool)
        → wildcard_match text pattern ≡ r
        → (b : Bool) × (wildcard_match text pattern ≡ some b) × ((b ≡ true) ↔ Matches pattern text)
    answer (some true) e =
        (true, e, (λ t. rw e at (wildcard_match-Decides text pattern), λ g. refl))
    answer (some false) e =
        let no = (rw e at (wildcard_match-Decides text pattern)) plain in
        (false, e, (λ t. absurd (cc), λ g. absurd (no g)))
    answer none e = absurd (rw e at (wildcard_match-Decides text pattern))

-- Whatever is in the text: a text that is matched has the pattern's shape.
pub wildcard_match_sound :
    (text pattern : Bytes) → wildcard_match text pattern ≡ some true → Matches pattern text
wildcard_match_sound text pattern e = rw e at (wildcard_match-Decides text pattern)

-- A star that meets a star in the text is read as that one byte: the pattern "*" refuses every
-- text of two bytes or more that begins with a star.
pub wildcard_match-star_text :
    (c : ℕ) (s : Bytes) → wildcard_match (star ∷ c ∷ s) (star ∷ []) ≡ some false
unfolding wildcard_match
wildcard_match-star_text c s =
    let e : (suc (suc (length s)) + 1) * 2 ≡ suc (suc (2 * length s + 4)) = omega arith in rw e
