-- ===== src/Plan/Table.antt =====
-- A vector whose entries are found by a name through a std::unordered_map from names to positions:
-- `try_emplace(key, size())`, then a `push_back` or a change in place. The map is an association list.
pub mod Upsert
use gentest.Base.{
  ℕ, zero, suc, Bool, true, false, Option, none, some, List, [], ◌∷◌, ◌++◌, Bytes, bytes_eq,
  if◌then◌else◌, length,
}

pub record Table (E : Type 0) : Type 0 where
  pub entries : List E
  pub indices : List (Bytes × ℕ)

unfoldable pub empty_table : {E : Type 0} → Table E
empty_table = record { entries = []; indices = [] }

unfoldable pub find_index : Bytes → List (Bytes × ℕ) → Option ℕ
find_index key [] = none
find_index key ((k, i) ∷ indices) = if bytes_eq k key then some i else find_index key indices

-- A position out of range, which the map never holds, changes nothing.
unfoldable pub modify : {E : Type 0} → ℕ → (E → E) → List E → List E
modify i f [] = []
modify zero f (e ∷ es) = f e ∷ es
modify (suc i) f (e ∷ es) = e ∷ modify i f es

unfoldable pub add_or_update : {E : Type 0} → Bytes → E → (E → E) → Table E → Table E
unfolding find_index modify
add_or_update key fresh update t = elim (find_index key t.indices) [
  | some i ↦ record t { entries = modify i update t.entries }
  | none ↦ record {
    entries = t.entries ++ fresh ∷ [];
    indices = (key, length t.entries) ∷ t.indices;
  }
]
