-- ===== src/Generator/Validate/Sound/Flags.antt =====
-- The branches on flags and on the owner keep the summary sound.
use mathlib.Core.List.{append_assoc, map-append}
use gentest.Selector.Tags.{lower}
use gentest.Base.{
  ◌⊎◌, map, sym, ap, ◌∙◌, refl, inl, inr, bytes_eq_iff, Bool-cases, arith, ◌≡◌, Bool, true, false,
  not, ◌&&◌, ◌||◌, Option, none, some, List, [], ◌∷◌, ◌++◌, Bytes, codes, bytes_eq,
}
use gentest.Generator.Validate.{Validation, is_in, add_unique, lowered}
use gentest.Generator.Validate.Branches.{
  is_allowed_flag_attribute, conflicts, flag_seen, flag_branch, owner_seen, owner_once,
  value_branch,
}
use gentest.Generator.Validate.Sound.{
  OnePlatform, IsKept, fail-IsKept, fail_or, add_unique-Distinct, is_in-append, Seen,
  is_in-add_unique,
}

one_of_two :
    (l w is_l is_w : Bool)
    → ((is_l && w) || (is_w && l)) ≡ false
    → (l && w) ≡ false
    → (is_l && is_w) ≡ false
    → ((l || is_l) && (w || is_w)) ≡ false
one_of_two l w is_l is_w c h k = ground arith

one_name :
    (name : Bytes) → (bytes_eq name (codes "linux") && bytes_eq name (codes "windows")) ≡ false
unfolding bytes_eq
one_name name = elim (Bool-cases (bytes_eq name (codes "linux"))) [
  | inl e ↦ rw ((bytes_eq_iff name (codes "linux")).0 e) refl
  | inr e ↦ rw e refl
]

OnePlatform-append :
    (seen : List Bytes) (name : Bytes)
    → conflicts seen name ≡ false
    → OnePlatform seen
    → OnePlatform (seen ++ name ∷ [])
unfolding conflicts bytes_eq
OnePlatform-append seen name c h =
    rw (is_in-append seen (codes "linux") name, is_in-append seen (codes "windows") name)
      (one_of_two (is_in seen (codes "linux")) (is_in seen (codes "windows"))
        (bytes_eq name (codes "linux")) (bytes_eq name (codes "windows")) c h (one_name name))

covered :
    (name tag p : Bytes) (tags seen : List Bytes)
    → name ≡ lowered tag
    → (is_in (map lowered tags) p ≡ true → is_in seen p ≡ true)
    → is_in (map lowered (add_unique tags tag)) p ≡ true
    → is_in (seen ++ name ∷ []) p ≡ true
covered name tag p tags seen q k h =
    is_in-append seen p name ∙ (elim (is_in-add_unique tags tag p h) [
      | inl a ↦ rw (k a) refl
      | inr b ↦ rw (q, b) (either_true (is_in seen p))
    ])
  where
    either_true : (b : Bool) → (b || true) ≡ true
    either_true b = ground arith

Seen-append :
    (name tag : Bytes) (tags seen : List Bytes)
    → name ≡ lowered tag
    → Seen tags seen
    → Seen (add_unique tags tag) (seen ++ name ∷ [])
Seen-append name tag tags seen q s = (
  covered name tag (codes "linux") tags seen q s.0,
  covered name tag (codes "windows") tags seen q s.1,
)

-- A tag that is neither of the flags.
Seen-add_unique :
    (tag : Bytes) (tags seen : List Bytes)
    → bytes_eq (lowered tag) (codes "linux") ≡ false
    → bytes_eq (lowered tag) (codes "windows") ≡ false
    → Seen tags seen
    → Seen (add_unique tags tag) seen
Seen-add_unique tag tags seen l w s = (
  λ h. kept (codes "linux") l s.0 (is_in-add_unique tags tag (codes "linux") h),
  λ h. kept (codes "windows") w s.1 (is_in-add_unique tags tag (codes "windows") h),
)
  where
    kept :
        (p : Bytes)
        → bytes_eq (lowered tag) p ≡ false
        → (is_in (map lowered tags) p ≡ true → is_in seen p ≡ true)
        → (is_in (map lowered tags) p ≡ true) ⊎ (bytes_eq (lowered tag) p ≡ true)
        → is_in seen p ≡ true
    kept p n k (inl a) = k a
    kept p n k (inr b) = absurd (ground (arith, n, b))

flag_seen-IsKept :
    (v : Validation) (name written : Bytes)
    → name ≡ lowered written
    → IsKept v
    → IsKept (flag_seen v name written)
unfolding flag_seen
flag_seen-IsKept v name written q h = fail_or (is_in v.seen_flags name) v _ _ h λ e.
    fail_or (conflicts v.seen_flags name) v _ _ h λ k. (
      h.0,
      h.1,
      h.2,
      h.3,
      add_unique-Distinct v.summary.tags written h.4,
      h.5,
      (
        OnePlatform-append v.seen_flags name k h.6.0,
        Seen-append name written v.summary.tags v.seen_flags q h.6.1,
      ),
      h.7,
      h.8,
    )

pub flag_branch-IsKept :
    (v : Validation) (name written : Bytes)
    → name ≡ lowered written
    → IsKept v
    → IsKept (flag_branch v name written)
unfolding flag_branch
flag_branch-IsKept v name written q h =
    fail_or (not (is_allowed_flag_attribute name)) v _ _ h
      λ e. flag_seen-IsKept (record v { saw_case = true }) name written q h

-- The tag of an owner begins with `owner=`.
owner_tag_lem :
    (written owner p : Bytes)
    → lowered written ≡ codes "owner"
    → ((rest : Bytes) → bytes_eq (codes "owner" ++ rest) p ≡ false)
    → bytes_eq (lowered (written ++ codes "=" ++ owner)) p ≡ false
owner_tag_lem written owner p q n =
    ap (λ t. bytes_eq (lowered t) p) (append_assoc written (codes "=") owner)
    ∙ ap (λ t. bytes_eq t p) (map-append lower written (codes "=" ++ owner))
    ∙ ap (λ t. bytes_eq (t ++ map lower (codes "=" ++ owner)) p) q
    ∙ n (map lower (codes "=" ++ owner))

owner_once-IsKept :
    (seen : Option Bytes) (v : Validation) (written owner : Bytes)
    → lowered written ≡ codes "owner"
    → IsKept v
    → IsKept (owner_once seen v written owner)
unfolding owner_once owner_seen bytes_eq
owner_once-IsKept (some before) v written owner q h = fail-IsKept v _ h
owner_once-IsKept none v written owner q h =
    let tag : Bytes = written ++ codes "=" ++ owner in
    (
      h.0,
      h.1,
      h.2,
      h.3,
      add_unique-Distinct v.summary.tags tag h.4,
      h.5,
      (
        h.6.0,
        Seen-add_unique tag v.summary.tags v.seen_flags
            (owner_tag_lem written owner (codes "linux") q (λ rest. refl))
            (owner_tag_lem written owner (codes "windows") q (λ rest. refl)) h.6.1,
      ),
      h.7,
      h.8,
    )

is_owner :
    (name written : Bytes)
    → name ≡ lowered written
    → not (bytes_eq name (codes "owner")) ≡ false
    → lowered written ≡ codes "owner"
is_owner name written q e = sym q ∙ (bytes_eq_iff name (codes "owner")).0 (ground (arith, e))

pub value_branch-IsKept :
    (v : Validation) (name written : Bytes) (arguments : List Bytes)
    → name ≡ lowered written
    → IsKept v
    → IsKept (value_branch v name written arguments)
unfolding value_branch
value_branch-IsKept v name written (a ∷ []) q h =
    fail_or (not (bytes_eq name (codes "owner"))) v _ _ h
      λ e. owner_once-IsKept v.seen_owner v written a (is_owner name written q e) h
value_branch-IsKept v name written [] q h =
    fail_or (not (bytes_eq name (codes "owner"))) v _ _ h λ e. fail-IsKept v _ h
value_branch-IsKept v name written (a ∷ b ∷ arguments) q h =
    fail_or (not (bytes_eq name (codes "owner"))) v _ _ h λ e. fail-IsKept v _ h
