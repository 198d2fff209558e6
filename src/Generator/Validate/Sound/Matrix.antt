-- ===== src/Generator/Validate/Sound/Matrix.antt =====
-- The branches on the parameters of a case keep the summary sound.
use gentest.Base.{
  ◌≡◌, Bool, true, Option, none, some, List, [], ◌∷◌, ◌++◌, Bytes, ◌==◌, All, All-append, if-cases,
  is_empty, length, if◌then◌else◌,
}
use gentest.Generator.Unquote.{trim_copy}
use gentest.Generator.Validate.{Validation, fail}
use gentest.Generator.Validate.Tuple.{parse_tuple}
use gentest.Generator.Validate.Parameters.{
  binds, template_param, template_branch, parameters_branch, at_colon, at_last_colon, range_spec,
  range_rest, range_expr, range_branch, linspace_branch, geom_branch, logspace_spec,
  logspace_branch, pack_rows, pack_names, pack_branch,
}
use gentest.Generator.Validate.Sound.{
  IsFilled, IsBinding, IsPack, IsKept, fail-IsKept, fail_or, IsFilled-≢,
}

template_param-IsKept :
    (v : Validation) (param : Bytes) (bindings : List Bytes)
    → IsKept v
    → IsKept (template_param v param bindings)
unfolding template_param
template_param-IsKept v param bindings h = fail_or (is_empty param) v _ _ h λ p.
    fail_or (binds v.summary.template_sets param) v _ _ h λ d.
      fail_or (is_empty bindings) v _ _ h λ b. (
        h.0,
        h.1,
        h.2,
        h.3,
        h.4,
        h.5,
        h.6,
        All-append IsBinding v.summary.template_sets
            ((record { param_name = param; candidates = bindings }) ∷ []) h.7
            ((IsFilled-≢ param p, IsFilled-≢ bindings b), tt),
        h.8,
      )

pub template_branch-IsKept :
    (v : Validation) (arguments : List Bytes) → IsKept v → IsKept (template_branch v arguments)
unfolding template_branch
template_branch-IsKept v [] h = fail-IsKept v _ h
template_branch-IsKept v (a ∷ []) h = fail-IsKept v _ h
template_branch-IsKept v (a ∷ b ∷ arguments) h =
    template_param-IsKept (record v { saw_case = true }) (trim_copy a) (b ∷ arguments) h

pub parameters_branch-IsKept :
    (v : Validation) (arguments : List Bytes) → IsKept v → IsKept (parameters_branch v arguments)
unfolding parameters_branch
parameters_branch-IsKept v [] h = fail-IsKept v _ h
parameters_branch-IsKept v (a ∷ []) h = fail-IsKept v _ h
parameters_branch-IsKept v (a ∷ b ∷ arguments) h = h

range_rest-IsKept :
    (v : Validation) (name start : Bytes) (found : Option (Bytes × Bytes))
    → IsKept v
    → IsKept (range_rest v name start found)
unfolding range_rest range_spec
range_rest-IsKept v name start none h = fail-IsKept v _ h
range_rest-IsKept v name start (some (step, end)) h = h

range_expr-IsKept :
    (v : Validation) (name : Bytes) (found : Option (Bytes × Bytes))
    → IsKept v
    → IsKept (range_expr v name found)
unfolding range_expr
range_expr-IsKept v name none h = fail-IsKept v _ h
range_expr-IsKept v name (some (start, rest)) h =
    range_rest-IsKept v name start (at_last_colon rest) h

pub range_branch-IsKept :
    (v : Validation) (arguments : List Bytes) → IsKept v → IsKept (range_branch v arguments)
unfolding range_branch range_spec
range_branch-IsKept v [] h = fail-IsKept v _ h
range_branch-IsKept v (a ∷ []) h = fail-IsKept v _ h
range_branch-IsKept v (a ∷ b ∷ []) h =
    range_expr-IsKept (record v { saw_case = true }) a (at_colon b) h
range_branch-IsKept v (a ∷ b ∷ c ∷ []) h = fail-IsKept (record v { saw_case = true }) _ h
range_branch-IsKept v (a ∷ b ∷ c ∷ d ∷ []) h = h
range_branch-IsKept v (a ∷ b ∷ c ∷ d ∷ e ∷ arguments) h =
    fail-IsKept (record v { saw_case = true }) _ h

pub linspace_branch-IsKept :
    (v : Validation) (arguments : List Bytes) → IsKept v → IsKept (linspace_branch v arguments)
unfolding linspace_branch
linspace_branch-IsKept v (a ∷ b ∷ c ∷ d ∷ []) h = h
linspace_branch-IsKept v _ h = fail-IsKept v _ h

pub geom_branch-IsKept :
    (v : Validation) (arguments : List Bytes) → IsKept v → IsKept (geom_branch v arguments)
unfolding geom_branch
geom_branch-IsKept v (a ∷ b ∷ c ∷ d ∷ []) h = h
geom_branch-IsKept v _ h = fail-IsKept v _ h

pub logspace_branch-IsKept :
    (v : Validation) (arguments : List Bytes) → IsKept v → IsKept (logspace_branch v arguments)
unfolding logspace_branch logspace_spec
logspace_branch-IsKept v (a ∷ b ∷ c ∷ d ∷ []) h = h
logspace_branch-IsKept v (a ∷ b ∷ c ∷ d ∷ e ∷ []) h = h
logspace_branch-IsKept v _ h = fail-IsKept v _ h

pack_rows-IsKept :
    (v : Validation) (names : List Bytes) (rows : List (List Bytes)) (arguments : List Bytes)
    → IsFilled names
    → All (λ row. (length row == length names) ≡ true) rows
    → IsKept v
    → IsKept (pack_rows v names rows arguments)
unfolding pack_rows
pack_rows-IsKept v names rows [] n r h = fail_or (is_empty rows) v _ _ h λ e. (
  h.0,
  h.1,
  h.2,
  h.3,
  h.4,
  h.5,
  h.6,
  h.7,
  All-append IsPack v.summary.param_packs ((record { names = names; rows = rows }) ∷ []) h.8
      ((n, IsFilled-≢ rows e, r), tt),
)
pack_rows-IsKept v names rows (a ∷ arguments) n r h =
    pack_rows-IsKept (if fits then v else fail v _) names
      (if fits then rows ++ parse_tuple a ∷ [] else rows) arguments n
      (if-cases (All Fits) fits (rows ++ parse_tuple a ∷ []) rows
        (λ e. All-append Fits rows (parse_tuple a ∷ []) r (e, tt)) (λ e. r))
      (if-cases IsKept fits v (fail v _) (λ e. h) (λ e. fail-IsKept v _ h))
  where
    fits : Bool
    fits = length (parse_tuple a) == length names

    Fits : List Bytes → Type 0
    Fits row = (length row == length names) ≡ true

pack_names-IsKept :
    (v : Validation) (names arguments : List Bytes)
    → IsKept v
    → IsKept (pack_names v names arguments)
unfolding pack_names
pack_names-IsKept v names arguments h =
    fail_or (is_empty names) v _ _ h
      λ e. pack_rows-IsKept v names [] arguments (IsFilled-≢ names e) tt h

pub pack_branch-IsKept :
    (v : Validation) (arguments : List Bytes) → IsKept v → IsKept (pack_branch v arguments)
unfolding pack_branch
pack_branch-IsKept v [] h = fail-IsKept v _ h
pack_branch-IsKept v (a ∷ []) h = fail-IsKept v _ h
pack_branch-IsKept v (a ∷ b ∷ arguments) h =
    pack_names-IsKept (record v { saw_case = true }) (parse_tuple a) (b ∷ arguments) h
