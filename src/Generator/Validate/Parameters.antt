-- ===== src/Generator/Validate/Parameters.antt =====
-- The branches of the loop in `validate_attributes` of tools/src/validate.cpp on the parameters of a
-- case.
use gentest.Base.{
  Bool, true, false, ◌||◌, Option, none, some, List, [], ◌∷◌, ◌++◌, Bytes, codes, ◌==◌, bytes_eq,
  if◌then◌else◌, is_empty, length,
}
use gentest.Generator.Unquote.{trim_copy}
use gentest.Generator.Validate.{Validation, TemplateBindingSet, RangeSpec, LogspaceSpec, fail}
use gentest.Generator.Validate.Tuple.{parse_tuple}
use gentest.Generator.Validate.Branches.{with_summary}

unfoldable pub binds : List TemplateBindingSet → Bytes → Bool
unfolding bytes_eq
binds [] param = false
binds (p ∷ sets) param = bytes_eq p.param_name param || binds sets param

-- Behind the check of the number of arguments; `bindings` has at least one.
unfoldable pub template_param : Validation → Bytes → List Bytes → Validation
unfolding binds fail
template_param v param bindings =
    if is_empty param
    then fail v (codes "'template' parameter name must be non-empty")
    else if binds v.summary.template_sets param
    then fail v (codes "duplicate 'template' attribute for the same parameter")
    else if is_empty bindings
    then fail v (codes "'template' requires at least one binding")
    else with_summary v (record v.summary {
      template_sets =
          v.summary.template_sets ++ (record { param_name = param; candidates = bindings }) ∷ [];
    })

unfoldable pub template_branch : Validation → List Bytes → Validation
unfolding template_param trim_copy fail
template_branch v (a ∷ b ∷ arguments) =
    template_param (record v { saw_case = true }) (trim_copy a) (b ∷ arguments)
template_branch v _ = fail v (codes "'template' requires a parameter name and at least one binding")

unfoldable pub parameters_branch : Validation → List Bytes → Validation
unfolding fail
parameters_branch v (a ∷ b ∷ arguments) =
    with_summary (record v { saw_case = true })
      (record v.summary {
        parameter_sets =
            v.summary.parameter_sets ++ (record { param_name = a; values = b ∷ arguments }) ∷ [];
      })
parameters_branch v _ =
    fail v (codes "'parameters' requires a parameter name and at least one value")

-- What stands before and behind the first colon.
unfoldable pub at_colon : Bytes → Option (Bytes × Bytes)
at_colon [] = none
at_colon (c ∷ s) = elim (at_colon s) [
  | none ↦ if c == b':' then some ([], s) else none
  | some (before, after) ↦ if c == b':' then some ([], s) else some (c ∷ before, after)
]

-- What stands before and behind the last colon.
unfoldable pub at_last_colon : Bytes → Option (Bytes × Bytes)
at_last_colon [] = none
at_last_colon (c ∷ s) = elim (at_last_colon s) [
  | none ↦ if c == b':' then some ([], s) else none
  | some (before, after) ↦ some (c ∷ before, after)
]

unfoldable pub range_spec : Validation → RangeSpec → Validation
range_spec v spec =
    with_summary v (record v.summary { parameter_ranges = v.summary.parameter_ranges ++ spec ∷ [] })

abbrev range_form : Bytes
range_form = codes "'parameters_range' second argument must be of the form start:step:end"

-- Behind the first colon there is another one, or the first is the last.
unfoldable pub range_rest : Validation → Bytes → Bytes → Option (Bytes × Bytes) → Validation
unfolding range_spec fail
range_rest v name start none = fail v range_form
range_rest v name start (some (step, end)) =
    range_spec v (record { name = name; start = start; step = step; end = end })

unfoldable pub range_expr : Validation → Bytes → Option (Bytes × Bytes) → Validation
unfolding range_rest at_last_colon fail
range_expr v name none = fail v range_form
range_expr v name (some (start, rest)) = range_rest v name start (at_last_colon rest)

unfoldable pub range_branch : Validation → List Bytes → Validation
unfolding range_expr range_spec at_colon fail
range_branch v [] =
    fail v
      (codes "'parameters_range' requires (name, start, step, end) or (name, \"start:step:end\")")
range_branch v (a ∷ []) =
    fail v
      (codes "'parameters_range' requires (name, start, step, end) or (name, \"start:step:end\")")
range_branch v (a ∷ b ∷ []) = range_expr (record v { saw_case = true }) a (at_colon b)
range_branch v (a ∷ b ∷ c ∷ d ∷ []) =
    range_spec (record v { saw_case = true }) (record { name = a; start = b; step = c; end = d })
range_branch v _ =
    fail (record v { saw_case = true })
      (codes "'parameters_range' requires exactly 2 or 4 arguments")

unfoldable pub linspace_branch : Validation → List Bytes → Validation
unfolding fail
linspace_branch v (a ∷ b ∷ c ∷ d ∷ []) =
    with_summary (record v { saw_case = true })
      (record v.summary {
        parameter_linspaces =
            v.summary.parameter_linspaces
            ++ (record { name = a; start = b; end = c; count = d }) ∷ [];
      })
linspace_branch v _ = fail v (codes "'parameters_linspace' requires (name, start, end, count)")

unfoldable pub geom_branch : Validation → List Bytes → Validation
unfolding fail
geom_branch v (a ∷ b ∷ c ∷ d ∷ []) =
    with_summary (record v { saw_case = true })
      (record v.summary {
        parameter_geoms =
            v.summary.parameter_geoms
            ++ (record { name = a; start = b; factor = c; count = d }) ∷ [];
      })
geom_branch v _ = fail v (codes "'geom' requires (name, start, factor, count)")

unfoldable pub logspace_spec : Validation → LogspaceSpec → Validation
logspace_spec v spec =
    with_summary (record v { saw_case = true })
      (record v.summary { parameter_logspaces = v.summary.parameter_logspaces ++ spec ∷ [] })

unfoldable pub logspace_branch : Validation → List Bytes → Validation
unfolding logspace_spec fail
logspace_branch v (a ∷ b ∷ c ∷ d ∷ []) =
    logspace_spec v (record { name = a; start_exp = b; end_exp = c; count = d; base = [] })
logspace_branch v (a ∷ b ∷ c ∷ d ∷ e ∷ []) =
    logspace_spec v (record { name = a; start_exp = b; end_exp = c; count = d; base = e })
logspace_branch v _ = fail v (codes "'logspace' requires (name, startExp, endExp, count[, base])")

-- The loop over the value tuples, with the rows so far.
unfoldable pub pack_rows : Validation → List Bytes → List (List Bytes) → List Bytes → Validation
unfolding parse_tuple fail
pack_rows v names rows [] =
    if is_empty rows
    then fail v (codes "'parameters_pack' requires at least one value tuple")
    else with_summary v (record v.summary {
      param_packs = v.summary.param_packs ++ (record { names = names; rows = rows }) ∷ [];
    })
pack_rows v names rows (a ∷ arguments) =
    let row = parse_tuple a in
    let fits = length row == length names in
    pack_rows (if fits then v else fail v (codes "'parameters_pack' value tuple arity mismatch"))
      names (if fits then rows ++ row ∷ [] else rows) arguments

unfoldable pub pack_names : Validation → List Bytes → List Bytes → Validation
unfolding pack_rows fail
pack_names v names arguments =
    if is_empty names
    then fail v (codes "'parameters_pack' first tuple must list at least one parameter name")
    else pack_rows v names [] arguments

unfoldable pub pack_branch : Validation → List Bytes → Validation
unfolding pack_names parse_tuple fail
pack_branch v (a ∷ b ∷ arguments) =
    pack_names (record v { saw_case = true }) (parse_tuple a) (b ∷ arguments)
pack_branch v _ =
    fail v (codes "'parameters_pack' requires a parameter name tuple and at least one value tuple")
