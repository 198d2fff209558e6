-- ===== src/Escape/Xml/Sanitize.antt =====
-- The sanitizer and the XML escape of src/runner_reporting.cpp: they end, and what they return.
use mathlib.Core.Option
use gentest.Base.{
  ℕ, zero, suc, ◌≤◌, ◌<◌, ◌≡◌, refl, ap, ◌∙◌, ◌≢◌, true, not, ◌||◌, some, [], ◌∷◌, ◌++◌, Bytes, ltb,
  arith, if-cases, length, drop, All, All-append,
}
use gentest.Escape.Xml.{
  Utf8DecodeResult, decoded_as, take, is_xml_char, decode_two, decode_three, decode_four,
  decode_utf8, sanitize_loop, sanitize_xml_text, markup_byte, escape_markup, escape_xml,
}

-- Every decoding takes one to four bytes.
abbrev HasWidth : Utf8DecodeResult → Type 0
HasWidth r = (1 ≤ r.width) × (r.width ≤ 4)

decode_two-HasWidth : (first : ℕ) (s : Bytes) → HasWidth (decode_two first s)
unfolding decode_two
decode_two-HasWidth first [] = (omega arith, omega arith)
decode_two-HasWidth first (second ∷ s) = ground arith

decode_three-HasWidth : (first : ℕ) (s : Bytes) → HasWidth (decode_three first s)
unfolding decode_three
decode_three-HasWidth first [] = (omega arith, omega arith)
decode_three-HasWidth first (second ∷ []) = (omega arith, omega arith)
decode_three-HasWidth first (second ∷ third ∷ s) = ground arith

decode_four-HasWidth : (first : ℕ) (s : Bytes) → HasWidth (decode_four first s)
unfolding decode_four
decode_four-HasWidth first [] = (omega arith, omega arith)
decode_four-HasWidth first (second ∷ []) = (omega arith, omega arith)
decode_four-HasWidth first (second ∷ third ∷ []) = (omega arith, omega arith)
decode_four-HasWidth first (second ∷ third ∷ fourth ∷ s) = ground arith

decode_utf8-HasWidth : (first : ℕ) (s : Bytes) → HasWidth (decode_utf8 first s)
unfolding decode_utf8
decode_utf8-HasWidth first s = ground (
  arith,
  decode_two-HasWidth first s,
  decode_three-HasWidth first s,
  decode_four-HasWidth first s,
)

drop_less : (k : ℕ) (s : Bytes) → length (drop k s) ≤ length s
drop_less zero s = omega arith
drop_less (suc k) [] = omega arith
drop_less (suc k) (c ∷ s) = omega (arith, drop_less k s)

-- Neither "<" nor ">" nor a quotation mark.
abbrev pub IsPlain : ℕ → Type 0
IsPlain c = (c ≢ b'<') × (c ≢ b'>') × (c ≢ b'"')

markup_byte-IsPlain : (ch : ℕ) → All IsPlain (markup_byte ch)
unfolding markup_byte
markup_byte-IsPlain ch = ground arith

escape_markup-IsPlain : (s : Bytes) → All IsPlain (escape_markup s)
unfolding escape_markup
escape_markup-IsPlain [] = tt
escape_markup-IsPlain (ch ∷ s) =
    All-append IsPlain (markup_byte ch) _ (markup_byte-IsPlain ch) (escape_markup-IsPlain s)

pub drop_next : (w c : ℕ) (s : Bytes) → 1 ≤ w → length (drop w (c ∷ s)) ≤ length s
drop_next zero c s h = absurd (omega arith)
drop_next (suc k) c s h = drop_less k s

sanitize_loop-ends :
    (fuel : ℕ) (s : Bytes) → length s ≤ fuel → (out : Bytes) × (sanitize_loop fuel s ≡ some out)
unfolding sanitize_loop
sanitize_loop-ends fuel [] h = ([], refl)
sanitize_loop-ends zero (c ∷ s) h = absurd (omega arith)
sanitize_loop-ends (suc fuel) (c ∷ s) h =
    let decoded = decode_utf8 c s in
    let shorter = drop_next decoded.width c s (decode_utf8-HasWidth c s).0 in
    let (out, e) = sanitize_loop-ends fuel (drop decoded.width (c ∷ s)) (omega arith) in
    if-cases (λ r. (out : Bytes) × (r ≡ some out))
      (not decoded.valid || not (is_xml_char decoded.code_point)) _ _
      (λ bad. (b'?' ∷ out, ap (Option.map (λ out. b'?' ∷ out)) e))
      (λ good. (
        take decoded.width (c ∷ s) ++ out,
        ap (Option.map (λ out. take decoded.width (c ∷ s) ++ out)) e,
      ))

-- The sanitizer and the escape end on every text, and what they return has no "<", no ">" and no
-- quotation mark.
pub escape_xml-IsPlain : (s : Bytes) → (out : Bytes) × (escape_xml s ≡ some out) × All IsPlain out
unfolding escape_xml sanitize_xml_text
escape_xml-IsPlain s =
    let (clean, e) = sanitize_loop-ends (length s) s (omega arith) in
    (escape_markup clean, ap (Option.map escape_markup) e, escape_markup-IsPlain clean)

abbrev pub IsPrintable : ℕ → Type 0
IsPrintable c = (0x20 ≤ c) × (c < 0x80)

decode_utf8_ascii : (c : ℕ) (s : Bytes) → c < 0x80 → decode_utf8 c s ≡ decoded_as c 1
unfolding decode_utf8
decode_utf8_ascii c s h = let low : ltb c 0x80 ≡ true = ground arith in rw low

is_xml_char_printable : (c : ℕ) → IsPrintable c → is_xml_char c ≡ true
unfolding is_xml_char
is_xml_char_printable c p = ground arith

printable_step :
    (fuel c : ℕ) (s : Bytes)
    → IsPrintable c
    → sanitize_loop (suc fuel) (c ∷ s) ≡ Option.map (λ out. c ∷ out) (sanitize_loop fuel s)
unfolding sanitize_loop
printable_step fuel c s p = rw (decode_utf8_ascii c s p.1, is_xml_char_printable c p)

sanitize_loop_printable : (s : Bytes) → All IsPrintable s → sanitize_loop (length s) s ≡ some s
unfolding sanitize_loop
sanitize_loop_printable [] h = refl
sanitize_loop_printable (c ∷ s) (p, h) =
    printable_step (length s) c s p ∙ ap (Option.map (λ out. c ∷ out)) (sanitize_loop_printable s h)

-- Printable ASCII is left as it is.
pub sanitize_xml_text_printable : (s : Bytes) → All IsPrintable s → sanitize_xml_text s ≡ some s
unfolding sanitize_xml_text
sanitize_xml_text_printable = sanitize_loop_printable
