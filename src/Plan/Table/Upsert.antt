-- ===== src/Plan/Table/Upsert.antt =====
-- What a table amounts to: a list in which an entry is found by its name.
use mathlib.Core.List.Perm
use mathlib.Core.List.{perm_middle, append-nil}
use mathlib.Core.Option
use gentest.Base.{
  ℕ, zero, suc, ◌≡◌, refl, sym, ◌∙◌, ◌≢◌, inl, inr, Option, none, some, List, [], ◌∷◌, ◌++◌, Perm,
  Bytes, bytes_eq, bytes_eq_iff, arith, if◌then◌else◌, length, All, Bool-cases, Option-cases,
}
use gentest.Plan.Table.{Table, empty_table, find_index, modify, add_or_update}

abbrev pub concat_map {ℓ κ} : {E : Type ℓ} {B : Type κ} → (E → List B) → List E → List B
concat_map g [] = []
concat_map g (e ∷ es) = g e ++ concat_map g es

module _ {E : Type 0} (key_of : E → Bytes) where
  -- The first entry of that name is changed; a new name comes last.
  abbrev pub upsert : Bytes → E → (E → E) → List E → List E
  upsert key fresh update [] = fresh ∷ []
  upsert key fresh update (e ∷ es) =
      if bytes_eq (key_of e) key then update e ∷ es else e ∷ upsert key fresh update es

  abbrev position : Bytes → List E → Option ℕ
  position key [] = none
  position key (e ∷ es) =
      if bytes_eq (key_of e) key then some 0 else Option.map suc (position key es)

  -- The map holds the position of each entry's name, and no other name.
  abbrev pub Agrees : Table E → Type 0
  Agrees t = (key : Bytes) → find_index key t.indices ≡ position key t.entries

  pub empty-Agrees : Agrees empty_table
  unfolding empty_table find_index
  empty-Agrees key = refl

  modify-position :
      (key : Bytes) (i : ℕ) (fresh : E) (f : E → E) (es : List E)
      → position key es ≡ some i
      → modify i f es ≡ upsert key fresh f es
  unfolding modify
  modify-position key i fresh f [] h = cc
  modify-position key zero fresh f (e ∷ es) h = elim (Option-cases (position key es)) [
    | inl n ↦ ground arith
    | inr (j, n) ↦ ground arith
  ]
  modify-position key (suc i) fresh f (e ∷ es) h = elim (Option-cases (position key es)) [
    | inl n ↦ ground arith
    | inr (j, n) ↦ ground (arith, modify-position key i fresh f es)
  ]

  append-position :
      (key : Bytes) (fresh : E) (f : E → E) (es : List E)
      → position key es ≡ none
      → es ++ fresh ∷ [] ≡ upsert key fresh f es
  append-position key fresh f [] h = refl
  append-position key fresh f (e ∷ es) h = elim (Option-cases (position key es)) [
    | inl n ↦ ground (arith, append-position key fresh f es n)
    | inr (j, n) ↦ ground arith
  ]

  position-append :
      (k : Bytes) (e : E) (es : List E)
      → position k (es ++ e ∷ []) ≡ (elim (position k es) [
        | some i ↦ some i
        | none ↦ if bytes_eq (key_of e) k then some (length es) else none
      ])
  position-append k e [] = ground arith
  position-append k e (x ∷ es) = ground (arith, position-append k e es)

  position-modify :
      (k : Bytes) (i : ℕ) (f : E → E) (es : List E)
      → ((e : E) → key_of (f e) ≡ key_of e)
      → position k (modify i f es) ≡ position k es
  unfolding modify
  position-modify k i f [] h = refl
  position-modify k zero f (e ∷ es) h = rw (h e)
  position-modify k (suc i) f (e ∷ es) h = rw (position-modify k i f es h)

  pub add_or_update-entries :
      (key : Bytes) (fresh : E) (f : E → E) (t : Table E)
      → Agrees t
      → (add_or_update key fresh f t).entries ≡ upsert key fresh f t.entries
  unfolding add_or_update
  add_or_update-entries key fresh f t a = elim (Option-cases (find_index key t.indices)) [
    | inl n ↦ rw (n, add_or_update) (append-position key fresh f t.entries (sym (a key) ∙ n))
    | inr (i, n) ↦ rw (n, add_or_update) (modify-position key i fresh f t.entries (sym (a key) ∙ n))
  ]

  pub add_or_update-Agrees :
      (key : Bytes) (fresh : E) (f : E → E) (t : Table E)
      → key_of fresh ≡ key
      → ((e : E) → key_of (f e) ≡ key_of e)
      → Agrees t
      → Agrees (add_or_update key fresh f t)
  unfolding add_or_update find_index
  add_or_update-Agrees key fresh f t hf hk a k = elim (Option-cases (find_index key t.indices)) [
    | inl n ↦ ground (arith, position-append k fresh t.entries, a k, a key, bytes_eq_iff key k)
    | inr (i, n) ↦ ground (arith, position-modify k i f t.entries hk, a k)
  ]

  -- A property of the entries survives, if the new entry has it and the change keeps it.
  pub upsert-All :
      (P : E → Type 0) (key : Bytes) (fresh : E) (f : E → E) (es : List E)
      → P fresh
      → ((e : E) → key_of e ≡ key → P e → P (f e))
      → All P es
      → All P (upsert key fresh f es)
  upsert-All P key fresh f [] hp hf h = (hp, tt)
  upsert-All P key fresh f (e ∷ es) hp hf h = elim (Bool-cases (bytes_eq (key_of e) key)) [
    | inl t ↦ rw t (hf e ((bytes_eq_iff (key_of e) key).0 t) h.0, h.1)
    | inr t ↦ rw t (h.0, upsert-All P key fresh f es hp hf h.1)
  ]

  -- No two entries have one name.
  abbrev pub Distinct : List E → Type 0
  Distinct [] = Unit {0}
  Distinct (e ∷ es) = All (λ x. key_of x ≢ key_of e) es × Distinct es

  pub upsert-Distinct :
      (key : Bytes) (fresh : E) (f : E → E) (es : List E)
      → key_of fresh ≡ key
      → ((e : E) → key_of (f e) ≡ key_of e)
      → Distinct es
      → Distinct (upsert key fresh f es)
  upsert-Distinct key fresh f [] hf hk d = (tt, tt)
  upsert-Distinct key fresh f (e ∷ es) hf hk d = elim (Bool-cases (bytes_eq (key_of e) key)) [
    | inl t ↦ rw t (rw (hk e) d.0, d.1)
    | inr t ↦ rw t (
      upsert-All (λ x. key_of x ≢ key_of e) key fresh f es
          (λ s. cc (t, (bytes_eq_iff (key_of e) key).1 (sym s ∙ hf)))
          (λ x same n s. n (sym (hk x) ∙ s)) d.0,
      upsert-Distinct key fresh f es hf hk d.1,
    )
  ]

  -- What the entries hold grows by `i`, if the new entry holds `i` alone and the change adds `i`.
  pub upsert-perm :
      (P : E → Type 0) (g : E → List ℕ) (i : ℕ) (key : Bytes) (fresh : E) (f : E → E) (es : List E)
      → Perm (g fresh) (i ∷ [])
      → ((e : E) → P e → Perm (g (f e)) (i ∷ g e))
      → All P es
      → Perm (concat_map g (upsert key fresh f es)) (i ∷ concat_map g es)
  upsert-perm P g i key fresh f [] hf hk h = rw append-nil hf
  upsert-perm P g i key fresh f (e ∷ es) hf hk h = elim (Bool-cases (bytes_eq (key_of e) key)) [
    | inl t ↦ rw t (Perm.append (hk e h.0) (Perm.refl (concat_map g es)))
    | inr t ↦ rw t (
        Perm.trans (Perm.append (Perm.refl (g e)) (upsert-perm P g i key fresh f es hf hk h.1))
          (perm_middle (g e) (concat_map g es)))
  ]
