-- ===== src/Generator/Validate/Sound/Cases.antt =====
-- The branches on what a case is keep the summary sound.
use gentest.Base.{ℕ, ◌≡◌, refl, true, not, Option, none, some, List, [], ◌∷◌, Bytes, is_empty}
use gentest.Generator.Unquote.{trim_copy}
use gentest.Generator.Validate.{Validation, add_unique}
use gentest.Generator.Validate.Positive.{parse_positive_u64, parse_positive_u64_iff}
use gentest.Generator.Validate.Branches.{
  test_name, test_arguments, test_branch, bench_arguments, bench_branch, baseline_branch,
  jitter_arguments, jitter_branch, count_value, count_arguments, count_branch, add_all, req_branch,
  skip_branch,
}
use gentest.Generator.Validate.Sound.{
  Distinct, IsKept, fail-IsKept, fail_or, IsFilled-≢, NamedUnless-some, add_unique-Distinct,
}

test_arguments-IsKept :
    (v : Validation) (arguments : List Bytes) → IsKept v → IsKept (test_arguments v arguments)
unfolding test_arguments test_name
test_arguments-IsKept v [] h = h
test_arguments-IsKept v (a ∷ []) h = fail_or (is_empty (trim_copy a)) v _ _ h λ e. (
  h.0,
  IsFilled-≢ (trim_copy a) e,
  NamedUnless-some _ (trim_copy a),
  h.3,
  h.4,
  h.5,
  h.6,
  h.7,
  h.8,
)
test_arguments-IsKept v (a ∷ b ∷ arguments) h = fail-IsKept v _ h

pub test_branch-IsKept :
    (v : Validation) (arguments : List Bytes) → IsKept v → IsKept (test_branch v arguments)
unfolding test_branch
test_branch-IsKept v arguments h =
    fail_or v.saw_test v _ _ h
      λ e. test_arguments-IsKept (record v { saw_test = true; saw_case = true }) arguments h

bench_arguments-IsKept :
    (v : Validation) (arguments : List Bytes) → IsKept v → IsKept (bench_arguments v arguments)
unfolding bench_arguments
bench_arguments-IsKept v (a ∷ []) h =
    fail_or (is_empty a) v _ _ h λ e. (h.0, IsFilled-≢ a e, tt, h.3, h.4, h.5, h.6, h.7, h.8)
bench_arguments-IsKept v [] h = fail-IsKept v _ h
bench_arguments-IsKept v (a ∷ b ∷ arguments) h = fail-IsKept v _ h

pub bench_branch-IsKept :
    (v : Validation) (arguments : List Bytes) → IsKept v → IsKept (bench_branch v arguments)
unfolding bench_branch
bench_branch-IsKept v arguments h =
    fail_or v.saw_bench v _ _ h
      λ e. bench_arguments-IsKept (record v { saw_bench = true; saw_case = true }) arguments h

pub baseline_branch-IsKept :
    (v : Validation) (arguments : List Bytes) → IsKept v → IsKept (baseline_branch v arguments)
unfolding baseline_branch
baseline_branch-IsKept v arguments h = fail_or (not (is_empty arguments)) v _ _ h λ e. h

jitter_arguments-IsKept :
    (v : Validation) (arguments : List Bytes) → IsKept v → IsKept (jitter_arguments v arguments)
unfolding jitter_arguments
jitter_arguments-IsKept v (a ∷ []) h =
    fail_or (is_empty a) v _ _ h
      λ e. (h.0, IsFilled-≢ a e, NamedUnless-some _ a, h.3, h.4, h.5, h.6, h.7, h.8)
jitter_arguments-IsKept v [] h = fail-IsKept v _ h
jitter_arguments-IsKept v (a ∷ b ∷ arguments) h = fail-IsKept v _ h

pub jitter_branch-IsKept :
    (v : Validation) (arguments : List Bytes) → IsKept v → IsKept (jitter_branch v arguments)
unfolding jitter_branch
jitter_branch-IsKept v arguments h =
    fail_or v.saw_jitter v _ _ h
      λ e. jitter_arguments-IsKept (record v { saw_jitter = true; saw_case = true }) arguments h

-- A state in which an item count was given, with the count that the parser returned.
count_value-IsKept :
    (v : Validation) (name text : Bytes) (found : Option ℕ)
    → parse_positive_u64 text ≡ found
    → v.saw_items_per_call ≡ true
    → IsKept v
    → IsKept (count_value v name found)
unfolding count_value
count_value-IsKept v name text none e s h = fail-IsKept v _ h
count_value-IsKept v name text (some items) e s h =
    let r = (parse_positive_u64_iff text items).0 e in
    (h.0, h.1, h.2, (r.2, r.0.3, rw s refl), h.4, h.5, h.6, h.7, h.8)

count_arguments-IsKept :
    (v : Validation) (name : Bytes) (arguments : List Bytes)
    → v.saw_items_per_call ≡ true
    → IsKept v
    → IsKept (count_arguments v name arguments)
unfolding count_arguments
count_arguments-IsKept v name (a ∷ []) s h =
    count_value-IsKept v name (trim_copy a) (parse_positive_u64 (trim_copy a)) refl s h
count_arguments-IsKept v name [] s h = fail-IsKept v _ h
count_arguments-IsKept v name (a ∷ b ∷ arguments) s h = fail-IsKept v _ h

pub count_branch-IsKept :
    (v : Validation) (name : Bytes) (arguments : List Bytes)
    → IsKept v
    → IsKept (count_branch v name arguments)
unfolding count_branch
count_branch-IsKept v name arguments h = fail_or v.saw_items_per_call v _ _ h λ e.
    count_arguments-IsKept (record v { saw_items_per_call = true }) name arguments refl
      (h.0, h.1, h.2, (h.3.0, h.3.1, refl), h.4, h.5, h.6, h.7, h.8)

add_all-Distinct :
    (values arguments : List Bytes) → Distinct values → Distinct (add_all values arguments)
unfolding add_all
add_all-Distinct values [] h = h
add_all-Distinct values (a ∷ arguments) h =
    add_all-Distinct (add_unique values a) arguments (add_unique-Distinct values a h)

pub req_branch-IsKept :
    (v : Validation) (arguments : List Bytes) → IsKept v → IsKept (req_branch v arguments)
unfolding req_branch
req_branch-IsKept v arguments h = fail_or (is_empty arguments) v _ _ h λ e.
    (h.0, h.1, h.2, h.3, h.4, add_all-Distinct v.summary.requirements arguments h.5, h.6, h.7, h.8)

pub skip_branch-IsKept :
    (v : Validation) (arguments : List Bytes) → IsKept v → IsKept (skip_branch v arguments)
unfolding skip_branch
skip_branch-IsKept v arguments h = h
