-- ===== src/Generator/Arguments/Joined.antt =====
-- Arguments written with commas between them, and `split_arguments`.
use mathlib.Core.List.{append-nil, append_assoc}
use gentest.Base.{ℕ, ◌≡◌, refl, sym, ap, ◌∙◌, true, false, List, [], ◌∷◌, ◌++◌, map, Bytes, All}
use gentest.Generator.Unquote.{is_space, trim_copy}
use gentest.Generator.Unquote.Quoted.{escape, escape_induction}
use gentest.Generator.Literal.{other, char_kind, Literal, outside, in_string, within}
use gentest.Generator.Arguments.{
  Split, push_char, split_comma, split_outside, split_step, split_loop, split_end, split_arguments,
  with_token,
}
use gentest.Generator.Arguments.Printed.{
  Argument, text, word, print_argument, argument_value, print_more, print_arguments, IsPlain,
  IsWritten, with_token-print_argument,
}

-- The text read, on top of the text before it.
abbrev pub onto : Bytes → Bytes → Bytes
onto [] before = before
onto (c ∷ s) before = onto s (c ∷ before)

abbrev between : List Bytes → Bytes → Literal → Split
between parts current literal = record {
  parts = parts;
  current = current;
  depth = 0;
  angle_depth = 0;
  literal = literal;
}

-- Outside of brackets, the loop reads the text into the token.
abbrev Reads : Literal → Bytes → Literal → Type 0
Reads from s to =
    (parts : List Bytes) (current before rest : Bytes)
    → split_loop (between parts current from) before (s ++ rest)
      ≡ split_loop (between parts (current ++ s) to) (onto s before) rest

Reads-[] : (literal : Literal) → Reads literal [] literal
Reads-[] literal parts current before rest = rw (append-nil current) refl

Reads-∷ :
    (from via to : Literal) (c : ℕ) (s : Bytes)
    → ((parts : List Bytes) (current before rest : Bytes)
        → split_step from (between parts current from) before c rest
          ≡ between parts (current ++ c ∷ []) via)
    → Reads via s to
    → Reads from (c ∷ s) to
unfolding split_loop
Reads-∷ from via to c s h k parts current before rest =
    ap (λ t. split_loop t (c ∷ before) (s ++ rest)) (h parts current before (s ++ rest))
    ∙ k parts (current ++ c ∷ []) (c ∷ before) rest
    ∙ ap (λ t. split_loop (between parts t to) (onto s (c ∷ before)) rest)
        (append_assoc current (c ∷ []) s)

split_step-plain :
    (s : Split) (before : Bytes) (c : ℕ) (rest : Bytes)
    → char_kind c ≡ other
    → split_step outside s before c rest ≡ push_char s c outside
unfolding split_step split_outside
split_step-plain s before c rest h = rw (split_step, split_outside, h) refl

Reads-word : (w : Bytes) → All IsPlain w → Reads outside w outside
Reads-word [] h = Reads-[] outside
Reads-word (c ∷ w) h =
    Reads-∷ outside outside outside c w
      (λ parts current before rest.
        split_step-plain (between parts current outside) before c rest h.0.0)
      (Reads-word w h.1)

Reads-escape : (s : Bytes) → Reads (in_string false) (escape s ++ b'"' ∷ []) outside
unfolding split_step within
Reads-escape =
    escape_induction (λ t. Reads (in_string false) t outside)
      (Reads-∷ (in_string false) outside outside b'"' [] (λ parts current before rest. refl)
        (Reads-[] outside))
      (λ c t e k h.
        Reads-∷ (in_string false) (in_string false) outside c t
          (λ parts current before rest. rw (split_step, within, e, k) refl) h)
      (λ c t h.
        Reads-∷ (in_string false) (in_string true) outside b'\\' (c ∷ t)
          (λ parts current before rest. refl)
          (Reads-∷ (in_string true) (in_string false) outside c t
            (λ parts current before rest. refl) h))

Reads-argument : (a : Argument) → IsWritten a → Reads outside (print_argument a) outside
unfolding split_step split_outside char_kind
Reads-argument (text s) h =
    Reads-∷ outside (in_string false) outside b'"' (escape s ++ b'"' ∷ [])
      (λ parts current before rest. refl) (Reads-escape s)
Reads-argument (word w) h = Reads-word w h.1

split_comma_lem :
    (parts : List Bytes) (current before rest : Bytes)
    → split_loop (between parts current outside) before (b',' ∷ b' ' ∷ rest)
      ≡ split_loop
          (between (with_token parts (trim_copy current)) (b' ' ∷ []) outside)
          (b' ' ∷ b',' ∷ before)
          rest
unfolding split_loop split_step split_outside split_comma char_kind
split_comma_lem parts current before rest = refl

-- The arguments that follow, behind the token of the one before them.
split_loop-print_more :
    (arguments : List Argument) (parts : List Bytes) (current before : Bytes)
    → All IsWritten arguments
    → split_end (split_loop (between parts current outside) before (print_more arguments))
      ≡ with_token parts (trim_copy current) ++ map argument_value arguments
unfolding split_loop split_end
split_loop-print_more [] parts current before h = sym (append-nil _)
split_loop-print_more (a ∷ arguments) parts current before h =
    let done = with_token parts (trim_copy current) in
    ap split_end (split_comma_lem parts current before (print_argument a ++ print_more arguments))
    ∙ ap split_end
        (Reads-argument a h.0 done (b' ' ∷ []) (b' ' ∷ b',' ∷ before) (print_more arguments))
    ∙ split_loop-print_more arguments done (b' ' ∷ print_argument a)
        (onto (print_argument a) (b' ' ∷ b',' ∷ before)) h.1
    ∙ ap (λ t. t ++ map argument_value arguments)
        (with_token-print_argument done (b' ' ∷ []) a (space_blank, tt) h.0)
    ∙ append_assoc done (argument_value a ∷ []) (map argument_value arguments)
  where
    space_blank : is_space b' ' ≡ true
    space_blank = unfold is_space in refl

-- Arguments written as ordinary string literals or plain words, with commas and spaces between them,
-- are split into their values.
pub split_arguments-print_arguments :
    (arguments : List Argument)
    → All IsWritten arguments
    → split_arguments (print_arguments arguments) ≡ map argument_value arguments
unfolding split_arguments
split_arguments-print_arguments [] h = refl
split_arguments-print_arguments (a ∷ arguments) h =
    ap split_end (Reads-argument a h.0 [] [] [] (print_more arguments))
    ∙ split_loop-print_more arguments [] (print_argument a) (onto (print_argument a) []) h.1
    ∙ ap (λ t. t ++ map argument_value arguments) (with_token-print_argument [] [] a tt h.0)
