-- ===== src/Generator/Arguments/Printed.antt =====
-- Arguments of an attribute as a test's author writes them: string literals, and words such as
-- numbers.
use mathlib.Core.List.{append-nil}
use gentest.Base.{
  ℕ, ◌≡◌, refl, sym, ap, ◌∙◌, inl, inr, Bool, false, ◌||◌, List, [], ◌∷◌, ◌++◌, Bytes, ◌==◌, All,
  Bool-cases, arith, is_empty,
}
use gentest.Generator.Unquote.{is_space, trim_back, trim_copy, unquote_trimmed, unquote}
use gentest.Generator.Unquote.Quoted.{
  quoted, IsBlank, trim_front-blank, trim_copy-quoted, unquote-quoted,
}
use gentest.Generator.Literal.{other, char_kind}
use gentest.Generator.Arguments.{with_token}

pub data Argument : Type 0 where
  text : Bytes → Argument
  word : Bytes → Argument

abbrev pub print_argument : Argument → Bytes
print_argument (text s) = quoted s
print_argument (word w) = w

-- What the argument stands for.
abbrev pub argument_value : Argument → Bytes
argument_value (text s) = s
argument_value (word w) = w

abbrev pub print_more : List Argument → Bytes
print_more [] = []
print_more (a ∷ arguments) = b',' ∷ b' ' ∷ (print_argument a ++ print_more arguments)

abbrev pub print_arguments : List Argument → Bytes
print_arguments [] = []
print_arguments (a ∷ arguments) = print_argument a ++ print_more arguments

-- A letter that a raw string literal may begin with.
abbrev pub begins_raw : ℕ → Bool
begins_raw c = c == b'R' || c == b'u' || c == b'U' || c == b'L'

-- No space, no quote, bracket or comma, and none of those letters.
abbrev pub IsPlain : ℕ → Type 0
IsPlain c = (char_kind c ≡ other) × (is_space c ≡ false) × (begins_raw c ≡ false)

-- A word has a character, and all its characters are plain.
abbrev pub IsWritten : Argument → Type 0
IsWritten (text s) = Unit
IsWritten (word w) = (is_empty w ≡ false) × All IsPlain w

other_no_quote : (c : ℕ) → char_kind c ≡ other → (c == b'"') ≡ false
unfolding char_kind
other_no_quote c h = elim (Bool-cases (c == b'"')) [
  | inl e ↦ absurd (ground (arith, rw e at h))
  | inr e ↦ e
]

trim_back-word : (w : Bytes) → All IsPlain w → trim_back w ≡ w
unfolding trim_back
trim_back-word [] h = refl
trim_back-word (c ∷ w) h = rw (trim_back-word w h.1, h.0.1) (ground arith)

trim_copy-word :
    (before : Bytes) (c : ℕ) (w : Bytes)
    → IsBlank before
    → All IsPlain (c ∷ w)
    → trim_copy (before ++ c ∷ w) ≡ c ∷ w
unfolding trim_copy
trim_copy-word before c w hb h =
    ap trim_back (trim_front-blank before w c hb h.0.1) ∙ trim_back-word (c ∷ w) h

with_token-word :
    (parts : List Bytes) (c : ℕ) (w : Bytes)
    → All IsPlain (c ∷ w)
    → with_token parts (c ∷ w) ≡ parts ++ (c ∷ w) ∷ []
unfolding with_token unquote unquote_trimmed
with_token-word parts c w h =
    ap (λ t. parts ++ unquote_trimmed t ∷ []) (trim_copy-word [] c w tt h)
    ∙ rw (other_no_quote c h.0.0) refl

with_token-quoted : (parts : List Bytes) (s : Bytes) → with_token parts (quoted s) ≡ parts ++ s ∷ []
unfolding with_token
with_token-quoted parts s =
    ap (λ t. parts ++ unquote t ∷ []) (sym (append-nil (quoted s)))
    ∙ ap (λ t. parts ++ t ∷ []) (unquote-quoted [] s [] tt tt)

-- The token of a printed argument, with spaces before it, is that argument's value.
pub with_token-print_argument :
    (parts : List Bytes) (before : Bytes) (a : Argument)
    → IsBlank before
    → IsWritten a
    → with_token parts (trim_copy (before ++ print_argument a)) ≡ parts ++ argument_value a ∷ []
with_token-print_argument parts before (text s) hb h =
    ap (with_token parts) (
      ap (λ t. trim_copy (before ++ t)) (sym (append-nil (quoted s)))
      ∙ trim_copy-quoted before s [] hb tt)
    ∙ with_token-quoted parts s
with_token-print_argument parts before (word []) hb h = absurd (ground (arith, h.0))
with_token-print_argument parts before (word (c ∷ w)) hb h =
    ap (with_token parts) (trim_copy-word before c w hb h.1) ∙ with_token-word parts c w h.1
