-- ===== src/Escape/Github.antt =====
-- `gha_escape_message` and `gha_escape_property` of src/runner_reporting.cpp, which escape the parts of
-- a GitHub workflow command.
use gentest.Base.{
  ℕ, ◌+◌, ◌-◌, ◌*◌, ltb, ◌≡◌, refl, sym, ap, ◌∙◌, ==_iff, ◌≢◌, true, false, [], ◌∷◌, ◌++◌, Bytes,
  codes, ◌==◌, arith, if◌then◌else◌, if-cases, All, All-append,
}

abbrev cr : ℕ
cr = 13

abbrev lf : ℕ
lf = 10

-- The switch on one byte.
unfoldable pub message_byte : ℕ → Bytes
message_byte ch =
    if ch == b'%'
    then codes "%25"
    else if ch == cr
    then codes "%0D"
    else if ch == lf
    then codes "%0A"
    else ch ∷ []

unfoldable pub property_byte : ℕ → Bytes
property_byte ch =
    if ch == b'%'
    then codes "%25"
    else if ch == cr
    then codes "%0D"
    else if ch == lf
    then codes "%0A"
    else if ch == b':'
    then codes "%3A"
    else if ch == b','
    then codes "%2C"
    else ch ∷ []

unfoldable pub gha_escape_message : Bytes → Bytes
unfolding message_byte
gha_escape_message [] = []
gha_escape_message (ch ∷ s) = message_byte ch ++ gha_escape_message s

unfoldable pub gha_escape_property : Bytes → Bytes
unfolding property_byte
gha_escape_property [] = []
gha_escape_property (ch ∷ s) = property_byte ch ++ gha_escape_property s

-- A hexadecimal digit in capitals.
abbrev hex_digit : ℕ → ℕ
hex_digit c = if ltb c b'A' then c - b'0' else c - b'A' + 10

-- Percent decoding: a percent sign and two digits are a byte. What a percent sign without two digits
-- behind it stands for is left open; it is read as itself.
unfoldable pub percent_decode : Bytes → Bytes
percent_decode [] = []
percent_decode (c ∷ []) = c ∷ []
percent_decode (c ∷ d ∷ []) = c ∷ d ∷ []
percent_decode (c ∷ d ∷ e ∷ s) =
    let escaped = percent_decode s in
    let plain = percent_decode (d ∷ e ∷ s) in
    if c == b'%' then (hex_digit d * 16 + hex_digit e) ∷ escaped else c ∷ plain

plain_byte : (c : ℕ) (s : Bytes) → c ≢ b'%' → percent_decode (c ∷ s) ≡ c ∷ percent_decode s
unfolding percent_decode
plain_byte c [] n = refl
plain_byte c (d ∷ []) n = refl
plain_byte c (d ∷ e ∷ s) n =
    if-cases (λ l. l ≡ c ∷ percent_decode (d ∷ e ∷ s)) (c == b'%') _ _
      (λ t. absurd (n ((==_iff c b'%').0 t))) (λ f. refl)

-- The escape of a byte is read back as that byte.
abbrev ReadsBack : ℕ → Bytes → Bytes → Type 0
ReadsBack ch s escaped = percent_decode (escaped ++ s) ≡ ch ∷ percent_decode s

property_byte-ReadsBack : (ch : ℕ) (s : Bytes) → ReadsBack ch s (property_byte ch)
unfolding property_byte percent_decode
property_byte-ReadsBack ch s = if-cases (ReadsBack ch s) (ch == b'%') _ _ (is b'%') λ n.
    if-cases (ReadsBack ch s) (ch == cr) _ _ (is cr) λ e.
      if-cases (ReadsBack ch s) (ch == lf) _ _ (is lf) λ e.
        if-cases (ReadsBack ch s) (ch == b':') _ _ (is b':')
          λ e. if-cases (ReadsBack ch s) (ch == b',') _ _ (is b',') λ e. plain_byte ch s (other n)
  where
    is : (c : ℕ) → (ch == c) ≡ true → c ∷ percent_decode s ≡ ch ∷ percent_decode s
    is c e = ap (λ k. k ∷ percent_decode s) (sym ((==_iff ch c).0 e))

    other : (ch == b'%') ≡ false → ch ≢ b'%'
    other e = ground arith

message_byte-ReadsBack : (ch : ℕ) (s : Bytes) → ReadsBack ch s (message_byte ch)
unfolding message_byte percent_decode
message_byte-ReadsBack ch s = if-cases (ReadsBack ch s) (ch == b'%') _ _ (is b'%') λ n.
    if-cases (ReadsBack ch s) (ch == cr) _ _ (is cr)
      λ e. if-cases (ReadsBack ch s) (ch == lf) _ _ (is lf) λ e. plain_byte ch s (other n)
  where
    is : (c : ℕ) → (ch == c) ≡ true → c ∷ percent_decode s ≡ ch ∷ percent_decode s
    is c e = ap (λ k. k ∷ percent_decode s) (sym ((==_iff ch c).0 e))

    other : (ch == b'%') ≡ false → ch ≢ b'%'
    other e = ground arith

-- Percent decoding takes both escapes back to the text, so that no two texts are escaped alike.
pub gha_escape-percent_decode :
    (s : Bytes)
    → (percent_decode (gha_escape_message s) ≡ s) × (percent_decode (gha_escape_property s) ≡ s)
unfolding gha_escape_message gha_escape_property percent_decode
gha_escape-percent_decode [] = (refl, refl)
gha_escape-percent_decode (ch ∷ s) = (
  message_byte-ReadsBack ch (gha_escape_message s)
      ∙ ap (λ t. ch ∷ t) (gha_escape-percent_decode s).0,
  property_byte-ReadsBack ch (gha_escape_property s)
      ∙ ap (λ t. ch ∷ t) (gha_escape-percent_decode s).1,
)

-- No line break is left, and in a property no separator.
abbrev pub InLine : ℕ → Type 0
InLine c = (c ≢ cr) × (c ≢ lf)

abbrev pub InProperty : ℕ → Type 0
InProperty c = (c ≢ cr) × (c ≢ lf) × (c ≢ b':') × (c ≢ b',')

message_byte-InLine : (ch : ℕ) → All InLine (message_byte ch)
unfolding message_byte
message_byte-InLine ch = ground arith

property_byte-InProperty : (ch : ℕ) → All InProperty (property_byte ch)
unfolding property_byte
property_byte-InProperty ch = ground arith

-- An escaped message has no line break, and an escaped property has neither a line break nor a colon
-- nor a comma.
pub gha_escape-InLine :
    (s : Bytes) → All InLine (gha_escape_message s) × All InProperty (gha_escape_property s)
unfolding gha_escape_message gha_escape_property
gha_escape-InLine [] = (tt, tt)
gha_escape-InLine (ch ∷ s) = (
  All-append InLine (message_byte ch) _ (message_byte-InLine ch) (gha_escape-InLine s).0,
  All-append InProperty (property_byte ch) _ (property_byte-InProperty ch) (gha_escape-InLine s).1,
)
