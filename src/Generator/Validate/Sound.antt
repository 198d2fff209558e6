-- ===== src/Generator/Validate/Sound.antt =====
-- What `validate_attributes` keeps true of the summary that it builds.
pub mod Cases
pub mod Flags
pub mod Matrix
pub mod Whole
use mathlib.Core.List.{map-append}
use gentest.Base.{
  ℕ, ◌≤◌, ◌≡◌, refl, sym, ap, ◌∙◌, ◌⊎◌, inl, inr, Bool, true, false, not, ◌&&◌, ◌||◌, Option, none,
  some, List, [], ◌∷◌, ◌++◌, map, Bytes, codes, ◌==◌, bytes_eq, bytes_eq_iff, All, All-append,
  Bool-cases, if-cases, arith, if◌then◌else◌, is_empty, length,
}
use gentest.Cli.Decimal.{u64_max}
use gentest.Generator.Validate.{
  TemplateBindingSet, ParamPack, AttributeSummary, Validation, fail, lowered, is_in, add_unique,
}

abbrev pub IsFilled : {A : Type 0} → List A → Type 0
IsFilled [] = ⊥
IsFilled (x ∷ xs) = Unit

-- No text twice.
abbrev pub Distinct : List Bytes → Type 0
Distinct [] = Unit
Distinct (x ∷ values) = (is_in values x ≡ false) × Distinct values

-- A name is not empty.
abbrev pub Titled : Option Bytes → Type 0
Titled none = Unit
Titled (some name) = IsFilled name

-- There is a name, unless the flag says that none is needed.
abbrev pub NamedUnless : Bool → Option Bytes → Type 0
NamedUnless true name = Unit
NamedUnless false none = ⊥
NamedUnless false (some name) = Unit

abbrev pub IsBinding : TemplateBindingSet → Type 0
IsBinding set = IsFilled set.param_name × IsFilled set.candidates

-- Parameter names, and rows that each have a value for each of them.
abbrev pub IsPack : ParamPack → Type 0
IsPack pack =
    IsFilled pack.names
    × IsFilled pack.rows
    × All (λ row. (length row == length pack.names) ≡ true) pack.rows

abbrev pub Counted : Bool → ℕ → Type 0
Counted saw items = (1 ≤ items) × (items ≤ u64_max) × ((saw || items == 1) ≡ true)

abbrev pub OnePlatform : List Bytes → Type 0
OnePlatform seen = (is_in seen (codes "linux") && is_in seen (codes "windows")) ≡ false

-- Each platform whose flag is a tag, in any case of the letters, was seen.
abbrev pub Seen : List Bytes → List Bytes → Type 0
Seen tags seen =
    (is_in (map lowered tags) (codes "linux") ≡ true → is_in seen (codes "linux") ≡ true)
    × (is_in (map lowered tags) (codes "windows") ≡ true → is_in seen (codes "windows") ≡ true)

-- What the loop keeps: the error flag and the reports agree, and each part of the summary is well
-- formed.
abbrev pub IsKept : Validation → Type 0
IsKept v =
    (v.summary.had_error ≡ not (is_empty v.reports))
    × Titled v.summary.case_name
    × NamedUnless (not v.summary.is_benchmark && not v.summary.is_jitter) v.summary.case_name
    × Counted v.saw_items_per_call v.summary.items_per_call
    × Distinct v.summary.tags
    × Distinct v.summary.requirements
    × (OnePlatform v.seen_flags × Seen v.summary.tags v.seen_flags)
    × All IsBinding v.summary.template_sets
    × All IsPack v.summary.param_packs

-- The same of the result, whose tags are not for both platforms, in whatever case of the letters.
abbrev pub IsSound : Validation → Type 0
IsSound v =
    (v.summary.had_error ≡ not (is_empty v.reports))
    × Titled v.summary.case_name
    × NamedUnless (not v.summary.is_benchmark && not v.summary.is_jitter) v.summary.case_name
    × Counted v.saw_items_per_call v.summary.items_per_call
    × Distinct v.summary.tags
    × Distinct v.summary.requirements
    × OnePlatform (map lowered v.summary.tags)
    × All IsBinding v.summary.template_sets
    × All IsPack v.summary.param_packs

pub append_filled : (messages : List Bytes) (m : Bytes) → is_empty (messages ++ m ∷ []) ≡ false
append_filled [] m = refl
append_filled (x ∷ messages) m = refl

pub fail-IsKept : (v : Validation) (message : Bytes) → IsKept v → IsKept (fail v message)
unfolding fail
fail-IsKept v message h =
    (rw (append_filled v.reports message) refl, h.1, h.2, h.3, h.4, h.5, h.6, h.7, h.8)

pub IsFilled-≢ : {A : Type 0} (xs : List A) → is_empty xs ≡ false → IsFilled xs
IsFilled-≢ [] h = absurd (ground (arith, h))
IsFilled-≢ (x ∷ xs) h = tt

pub NamedUnless-some : (b : Bool) (name : Bytes) → NamedUnless b (some name)
NamedUnless-some true name = tt
NamedUnless-some false name = tt

pub is_in-append :
    (values : List Bytes) (x y : Bytes)
    → is_in (values ++ y ∷ []) x ≡ (is_in values x || bytes_eq y x)
unfolding is_in
is_in-append [] x y = elim (Bool-cases (bytes_eq y x)) [ inl e ↦ rw e refl | inr e ↦ rw e refl ]
is_in-append (z ∷ values) x y = elim (Bool-cases (bytes_eq z x)) [
  | inl e ↦ rw e refl
  | inr e ↦ rw e (is_in-append values x y)
]

bytes_eq_sym : (x y : Bytes) → bytes_eq x y ≡ false → bytes_eq y x ≡ false
bytes_eq_sym x y h = elim (Bool-cases (bytes_eq y x)) [
  | inl e ↦ absurd (ground (arith, h, (bytes_eq_iff x y).1 (sym ((bytes_eq_iff y x).0 e))))
  | inr e ↦ e
]

Distinct-append :
    (values : List Bytes) (y : Bytes)
    → is_in values y ≡ false
    → Distinct values
    → Distinct (values ++ y ∷ [])
unfolding is_in
Distinct-append [] y c h = (refl, tt)
Distinct-append (x ∷ values) y c h = elim (Bool-cases (bytes_eq x y)) [
  | inl e ↦ absurd (ground (arith, rw e at c))
  | inr e ↦ (
    is_in-append values x y ∙ rw (h.0, bytes_eq_sym x y e) refl,
    Distinct-append values y (rw e at c) h.1,
  )
]

pub add_unique-Distinct :
    (values : List Bytes) (y : Bytes) → Distinct values → Distinct (add_unique values y)
unfolding add_unique
add_unique-Distinct values y h =
    if-cases Distinct (is_in values y) values (values ++ y ∷ []) (λ e. h)
      (λ e. Distinct-append values y e h)

-- A test that fails or goes on.
pub fail_or :
    (b : Bool) (v other : Validation) (message : Bytes)
    → IsKept v
    → (b ≡ false → IsKept other)
    → IsKept (if b then fail v message else other)
fail_or b v other message h k =
    if-cases IsKept b (fail v message) other (λ e. fail-IsKept v message h) k

-- Which texts a list has with one more.
pub is_in-add_unique :
    (tags : List Bytes) (tag name : Bytes)
    → is_in (map lowered (add_unique tags tag)) name ≡ true
    → (is_in (map lowered tags) name ≡ true) ⊎ (bytes_eq (lowered tag) name ≡ true)
unfolding add_unique
is_in-add_unique tags tag name =
    if-cases
      (λ ts.
        is_in (map lowered ts) name ≡ true
        → (is_in (map lowered tags) name ≡ true) ⊎ (bytes_eq (lowered tag) name ≡ true))
      (is_in tags tag) tags (tags ++ tag ∷ []) (λ e h. inl h)
      (λ e h. or_last (is_in (map lowered tags) name) (bytes_eq (lowered tag) name) (
        sym (
          ap (λ ts. is_in ts name) (map-append lowered tags (tag ∷ []))
          ∙ is_in-append (map lowered tags) name (lowered tag))
        ∙ h))
  where
    or_last : (a b : Bool) → (a || b) ≡ true → (a ≡ true) ⊎ (b ≡ true)
    or_last a b h = ground arith

pub OnePlatform-Seen :
    (tags seen : List Bytes) → OnePlatform seen → Seen tags seen → OnePlatform (map lowered tags)
OnePlatform-Seen tags seen h s =
    not_both (is_in (map lowered tags) (codes "linux")) (is_in (map lowered tags) (codes "windows"))
      (is_in seen (codes "linux")) (is_in seen (codes "windows")) h s.0 s.1
  where
    not_both :
        (l w l' w' : Bool)
        → (l' && w') ≡ false
        → (l ≡ true → l' ≡ true)
        → (w ≡ true → w' ≡ true)
        → (l && w) ≡ false
    not_both true true l' w' h a b = ground (arith, a refl, b refl)
    not_both true false l' w' h a b = refl
    not_both false w l' w' h a b = refl
