-- ===== src/Generator/Unquote/Quoted.antt =====
-- Quoting and unquoting.
use mathlib.Core.List.{append_assoc}
use gentest.Base.{
  ℕ, ◌≡◌, refl, ap, ◌∙◌, inl, inr, true, false, ◌||◌, some, [], ◌∷◌, ◌++◌, Bytes, ◌==◌, ==_iff, All,
  Bool-cases, if◌then◌else◌, is_empty,
}
use gentest.Generator.Unquote.{
  is_space, trim_front, trim_back, trim_copy, escaped, decode, before_quote, unquote_trimmed,
  unquote,
}

-- A backslash in front of each quote and each backslash.
abbrev pub escape : Bytes → Bytes
escape [] = []
escape (c ∷ s) = if c == b'"' || c == b'\\' then b'\\' ∷ c ∷ escape s else c ∷ escape s

abbrev pub quoted : Bytes → Bytes
quoted s = b'"' ∷ (escape s ++ b'"' ∷ [])

abbrev pub IsBlank : Bytes → Type 0
IsBlank s = All (λ c. is_space c ≡ true) s

pub trim_front-blank :
    (before s : Bytes) (c : ℕ)
    → IsBlank before
    → is_space c ≡ false
    → trim_front (before ++ c ∷ s) ≡ c ∷ s
unfolding trim_front
trim_front-blank [] s c h n = rw n refl
trim_front-blank (x ∷ before) s c h n = rw h.0 (trim_front-blank before s c h.1 n)

trim_back-IsBlank : (after : Bytes) → IsBlank after → trim_back after ≡ []
unfolding trim_back
trim_back-IsBlank [] h = refl
trim_back-IsBlank (c ∷ after) h = rw (trim_back-IsBlank after h.1, h.0) refl

is_filled : (s r : Bytes) (c : ℕ) → is_empty (s ++ c ∷ r) ≡ false
is_filled [] r c = refl
is_filled (d ∷ s) r c = refl

trim_back-blank :
    (s after : Bytes) (c : ℕ)
    → IsBlank after
    → is_space c ≡ false
    → trim_back (s ++ c ∷ after) ≡ s ++ c ∷ []
unfolding trim_back
trim_back-blank [] after c h n = rw (trim_back-IsBlank after h, n) refl
trim_back-blank (d ∷ s) after c h n = rw (trim_back-blank s after c h n, is_filled s [] c) refl

before_quote-append : (s : Bytes) → before_quote (s ++ b'"' ∷ []) ≡ some s
unfolding before_quote
before_quote-append [] = refl
before_quote-append (c ∷ []) = refl
before_quote-append (c ∷ d ∷ s) = rw (before_quote-append (d ∷ s)) refl

decode-escape : (s : Bytes) → decode false (escape s) ≡ s
unfolding decode escaped
decode-escape [] = refl
decode-escape (c ∷ s) = elim (Bool-cases (c == b'"')) [
  | inl e ↦ rw ((==_iff c b'"').0 e) (ap (λ r. b'"' ∷ r) (decode-escape s))
  | inr e ↦ elim (Bool-cases (c == b'\\')) [
    | inl k ↦ rw ((==_iff c b'\\').0 k) (ap (λ r. b'\\' ∷ r) (decode-escape s))
    | inr k ↦ rw (e, k) (rw k (ap (λ r. c ∷ r) (decode-escape s)))
  ]
]

pub trim_copy-quoted :
    (before s after : Bytes)
    → IsBlank before
    → IsBlank after
    → trim_copy (before ++ (quoted s ++ after)) ≡ quoted s
unfolding trim_copy is_space
trim_copy-quoted before s after hb ha =
    ap trim_back (trim_front-blank before _ b'"' hb refl)
    ∙ ap (λ r. trim_back (b'"' ∷ r)) (append_assoc (escape s) (b'"' ∷ []) after)
    ∙ trim_back-blank (b'"' ∷ escape s) after b'"' ha refl

-- A text in quotes, with a backslash in front of each quote and each backslash of it, and with any
-- spaces around it, is unquoted to that text.
pub unquote-quoted :
    (before s after : Bytes)
    → IsBlank before
    → IsBlank after
    → unquote (before ++ (quoted s ++ after)) ≡ s
unfolding unquote unquote_trimmed
unquote-quoted before s after hb ha =
    ap unquote_trimmed (trim_copy-quoted before s after hb ha)
    ∙ rw (before_quote-append (escape s)) (decode-escape s)

-- What holds of the closing quote, and is kept by a character in front and by an escape in front,
-- holds of every escaped text with its closing quote.
pub escape_induction :
    (P : Bytes → Type 0)
    → P (b'"' ∷ [])
    → ((c : ℕ) (t : Bytes) → (c == b'"') ≡ false → (c == b'\\') ≡ false → P t → P (c ∷ t))
    → ((c : ℕ) (t : Bytes) → P t → P (b'\\' ∷ c ∷ t))
    → (s : Bytes) → P (escape s ++ b'"' ∷ [])
escape_induction P end bare escaped [] = end
escape_induction P end bare escaped (c ∷ s) =
    let more : P (escape s ++ b'"' ∷ []) = escape_induction P end bare escaped s in
    elim (Bool-cases (c == b'"')) [
      | inl e ↦ rw e (escaped c _ more)
      | inr e ↦ elim (Bool-cases (c == b'\\')) [
        | inl k ↦ rw (e, k) (escaped c _ more)
        | inr k ↦ rw (e, k) (bare c _ e k more)
      ]
    ]
