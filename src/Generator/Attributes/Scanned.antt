-- ===== src/Generator/Attributes/Scanned.antt =====
-- Arguments in parentheses, and `parse_attribute_list`.
use mathlib.Core.List.{append-nil, append_assoc}
use gentest.Base.{
  ℕ, ◌≡◌, refl, sym, ap, ◌∙◌, true, false, none, List, [], ◌∷◌, ◌++◌, map, Bytes, ◌==◌,
  strip_prefix, All, arith,
}
use gentest.Generator.Unquote.Quoted.{escape, escape_induction}
use gentest.Generator.Literal.{other, char_kind, Literal, outside, in_string, within}
use gentest.Generator.Arguments.Printed.{
  Argument, text, word, print_argument, argument_value, print_more, print_arguments, begins_raw,
  IsPlain, IsWritten,
}
use gentest.Generator.Arguments.Joined.{onto, split_arguments-print_arguments}
use gentest.Generator.Attributes.{
  after_prefix, raw_start_after, detect_raw_string_start, ArgumentScan, go_on, scan_kind,
  scan_close, scan_outside, scan_literal, scan_step, scan_arguments, arguments_at,
}

detect_raw_string_start-none :
    (c : ℕ) (s : Bytes) → begins_raw c ≡ false → detect_raw_string_start (c ∷ s) ≡ none
unfolding detect_raw_string_start after_prefix strip_prefix raw_start_after
detect_raw_string_start-none c s h =
    let big_r : (b'R' == c) ≡ false = ground (arith, h) in
    let small_u : (b'u' == c) ≡ false = ground (arith, h) in
    let big_u : (b'U' == c) ≡ false = ground (arith, h) in
    let big_l : (b'L' == c) ≡ false = ground (arith, h) in
    rw (detect_raw_string_start, after_prefix, strip_prefix, big_r, small_u, big_u, big_l)
      (rw (strip_prefix, small_u) refl)

abbrev inside_parens : Literal → ArgumentScan
inside_parens literal = record { skip = 0; raw = none; literal = literal; depth = 1 }

-- The loop reads the text on, at the parenthesis that it began with.
abbrev Reads : Literal → Bytes → Literal → Type 0
Reads from s to =
    (inside before rest : Bytes)
    → scan_arguments (inside_parens from) inside before (s ++ rest)
      ≡ scan_arguments (inside_parens to) (inside ++ s) (onto s before) rest

Reads-[] : (literal : Literal) → Reads literal [] literal
Reads-[] literal inside before rest = rw (append-nil inside) refl

Reads-∷ :
    (from via to : Literal) (c : ℕ) (s : Bytes)
    → ((before rest : Bytes) → scan_literal from 1 before c (c ∷ rest) ≡ go_on via 1)
    → Reads via s to
    → Reads from (c ∷ s) to
unfolding scan_arguments scan_step
Reads-∷ from via to c s h k inside before rest =
    rw (scan_arguments, scan_step, h before (s ++ rest))
      (k (inside ++ c ∷ []) (c ∷ before) rest
        ∙ ap (λ t. scan_arguments (inside_parens to) t (onto s (c ∷ before)) rest)
            (append_assoc inside (c ∷ []) s))

scan_literal-plain :
    (before rest : Bytes) (c : ℕ)
    → begins_raw c ≡ false
    → char_kind c ≡ other
    → scan_literal outside 1 before c (c ∷ rest) ≡ go_on outside 1
unfolding scan_literal scan_outside scan_kind
scan_literal-plain before rest c r h =
    rw (scan_literal, detect_raw_string_start-none c rest r) (rw (scan_outside, h) refl)

Reads-word : (w : Bytes) → All IsPlain w → Reads outside w outside
Reads-word [] h = Reads-[] outside
Reads-word (c ∷ w) h =
    Reads-∷ outside outside outside c w
      (λ before rest. scan_literal-plain before rest c h.0.2 h.0.0) (Reads-word w h.1)

Reads-escape : (s : Bytes) → Reads (in_string false) (escape s ++ b'"' ∷ []) outside
unfolding scan_literal within
Reads-escape =
    escape_induction (λ t. Reads (in_string false) t outside)
      (Reads-∷ (in_string false) outside outside b'"' [] (λ before rest. refl) (Reads-[] outside))
      (λ c t e k.
        Reads-∷ (in_string false) (in_string false) outside c t
          λ before rest. rw (scan_literal, within, e, k) refl)
      (λ c t h.
        Reads-∷ (in_string false) (in_string true) outside b'\\' (c ∷ t) (λ before rest. refl)
          (Reads-∷ (in_string true) (in_string false) outside c t (λ before rest. refl) h))

Reads-argument : (a : Argument) → IsWritten a → Reads outside (print_argument a) outside
unfolding scan_literal scan_outside scan_kind char_kind detect_raw_string_start after_prefix
    strip_prefix raw_start_after
Reads-argument (text s) h =
    Reads-∷ outside (in_string false) outside b'"' (escape s ++ b'"' ∷ []) (λ before rest. refl)
      (Reads-escape s)
Reads-argument (word w) h = Reads-word w h.1

onto-append : (s t before : Bytes) → onto (s ++ t) before ≡ onto t (onto s before)
onto-append [] t before = refl
onto-append (c ∷ s) t before = onto-append s t (c ∷ before)

Reads-append :
    (s t : Bytes)
    → Reads outside s outside
    → Reads outside t outside
    → Reads outside (s ++ t) outside
Reads-append s t h k inside before rest =
    ap (scan_arguments (inside_parens outside) inside before) (append_assoc s t rest)
    ∙ h inside before (t ++ rest)
    ∙ k (inside ++ s) (onto s before) rest
    ∙ ap (λ r. scan_arguments (inside_parens outside) r (onto t (onto s before)) rest)
        (append_assoc inside s t)
    ∙ ap (λ r. scan_arguments (inside_parens outside) (inside ++ (s ++ t)) r rest)
        (sym (onto-append s t before))

-- A comma and a space.
Reads-comma : Reads outside (b',' ∷ b' ' ∷ []) outside
unfolding scan_literal scan_outside scan_kind char_kind detect_raw_string_start after_prefix
    strip_prefix raw_start_after
Reads-comma =
    Reads-∷ outside outside outside b',' (b' ' ∷ []) (λ before rest. refl)
      (Reads-∷ outside outside outside b' ' [] (λ before rest. refl) (Reads-[] outside))

Reads-print_more :
    (arguments : List Argument)
    → All IsWritten arguments
    → Reads outside (print_more arguments) outside
Reads-print_more [] h = Reads-[] outside
Reads-print_more (a ∷ arguments) h =
    Reads-append (b',' ∷ b' ' ∷ []) (print_argument a ++ print_more arguments) Reads-comma (
      Reads-append (print_argument a) (print_more arguments) (Reads-argument a h.0)
        (Reads-print_more arguments h.1))

Reads-print_arguments :
    (arguments : List Argument)
    → All IsWritten arguments
    → Reads outside (print_arguments arguments) outside
Reads-print_arguments [] h = Reads-[] outside
Reads-print_arguments (a ∷ arguments) h =
    Reads-append (print_argument a) (print_more arguments) (Reads-argument a h.0)
      (Reads-print_more arguments h.1)

-- The arguments in their parentheses are read, and the index moves behind them.
pub arguments_at-print_arguments :
    (arguments : List Argument) (before rest : Bytes)
    → All IsWritten arguments
    → arguments_at (before, b'(' ∷ (print_arguments arguments ++ b')' ∷ rest)) ≡ (
      map argument_value arguments,
      (b')' ∷ onto (print_arguments arguments) (b'(' ∷ before), rest),
    )
unfolding arguments_at scan_arguments scan_step scan_literal scan_outside scan_kind scan_close
    char_kind detect_raw_string_start after_prefix strip_prefix raw_start_after
arguments_at-print_arguments arguments before rest h =
    Reads-print_arguments arguments h [] (b'(' ∷ before) (b')' ∷ rest)
    ∙ ap (λ t. (t, (b')' ∷ onto (print_arguments arguments) (b'(' ∷ before), rest)))
        (split_arguments-print_arguments arguments h)
