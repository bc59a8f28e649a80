-- ===== src/Prelude/Map.antt =====
-- std::unordered_map with string keys, as an association list. The order of the list stands for
-- the order in which the container is walked.
use mathlib.Core.Path.{◌≡◌, refl, sym, ◌∙◌}
use mathlib.Core.Bool.{Bool, true, false}
use mathlib.Core.Option.{Option, none, some}
use mathlib.Core.List.{List, [], ◌∷◌, ◌++◌, append-nil, append_assoc}
use native.Mathlib.Omega.{arith}
use kv_store_project.Prelude.Tests.{if◌then◌else◌, Bool-cases}
use mathlib.Core.Logic.{inl, inr}
use kv_store_project.Prelude.Text.{Bytes, bytes_eq, bytes_eq_iff}

abbrev pub Map {ℓ} : Type ℓ → Type ℓ
Map V = List (Bytes × V)

bytes_ne_sym : (s t : Bytes) → bytes_eq s t ≡ false → bytes_eq t s ≡ false
bytes_ne_sym s t h = ground (arith, bytes_eq_iff s t, bytes_eq_iff t s)

module _ {ℓ} {V : Type ℓ} where
  -- m.find(k)
  unfoldable pub lookup : Bytes → Map V → Option V
  lookup k [] = none
  lookup k ((j, v) ∷ m) = if bytes_eq j k then some v else lookup k m

  -- m[k] = v
  unfoldable pub insert : Bytes → V → Map V → Map V
  insert k v [] = (k, v) ∷ []
  insert k v ((j, w) ∷ m) = if bytes_eq j k then (j, v) ∷ m else (j, w) ∷ insert k v m

  -- m.erase(k)
  unfoldable pub erase : Bytes → Map V → Map V
  erase k [] = []
  erase k ((j, w) ∷ m) = let rest = erase k m in if bytes_eq j k then rest else (j, w) ∷ rest

  -- m.count(k) > 0
  unfoldable pub contains : Bytes → Map V → Bool
  unfolding lookup
  contains k m = elim (lookup k m) [ none ↦ false | some _ ↦ true ]

  pub lookup-insert :
      (k j : Bytes) (v : V) (m : Map V)
      → lookup j (insert k v m) ≡ (if bytes_eq k j then some v else lookup j m)
  unfolding lookup insert
  lookup-insert k j v [] = refl
  lookup-insert k j v ((i, w) ∷ m) =
      ground (arith, bytes_eq_iff k j, bytes_eq_iff i k, bytes_eq_iff i j, lookup-insert k j v m)

  pub lookup-erase :
      (k j : Bytes) (m : Map V) → lookup j (erase k m) ≡ (if bytes_eq k j then none else lookup j m)
  unfolding lookup erase
  lookup-erase k j [] = ground arith
  lookup-erase k j ((i, w) ∷ m) =
      ground (arith, bytes_eq_iff k j, bytes_eq_iff i k, bytes_eq_iff i j, lookup-erase k j m)

  -- `for (const auto &p : m) acc[p.first] = p.second;`
  unfoldable pub insert_all : Map V → Map V → Map V
  insert_all acc [] = acc
  insert_all acc ((k, v) ∷ m) = insert_all (insert k v acc) m

  -- No key twice, as in any container of the program.
  abbrev pub IsDistinct : Map V → Type ℓ
  IsDistinct [] = Unit {ℓ}
  IsDistinct ((k, v) ∷ m) = (lookup k m ≡ none) × IsDistinct m

  lookup-insert-none :
      (k j : Bytes) (v : V) (m : Map V)
      → bytes_eq k j ≡ false
      → lookup j m ≡ none
      → lookup j (insert k v m) ≡ none
  lookup-insert-none k j v m ne e = rw (lookup-insert k j v m, ne) e

  pub insert-IsDistinct : (k : Bytes) (v : V) (m : Map V) → IsDistinct m → IsDistinct (insert k v m)
  unfolding insert lookup
  insert-IsDistinct k v [] d = (refl, tt)
  insert-IsDistinct k v ((j, w) ∷ m) d = elim (Bool-cases (bytes_eq j k)) [
    | inl e ↦ rw e d
    | inr e ↦
        rw e (lookup-insert-none k j v m (bytes_ne_sym j k e) d.0, insert-IsDistinct k v m d.1)
  ]

  pub erase-IsDistinct : (k : Bytes) (m : Map V) → IsDistinct m → IsDistinct (erase k m)
  unfolding erase
  erase-IsDistinct k [] d = tt
  erase-IsDistinct k ((j, w) ∷ m) d = elim (Bool-cases (bytes_eq j k)) [
    | inl e ↦ rw e (erase-IsDistinct k m d.1)
    | inr e ↦ rw e (rw (lookup-erase k j m, bytes_ne_sym j k e) d.0, erase-IsDistinct k m d.1)
  ]

  insert_new : (k : Bytes) (v : V) (m : Map V) → lookup k m ≡ none → insert k v m ≡ m ++ (k, v) ∷ []
  unfolding insert lookup
  insert_new k v [] h = refl
  insert_new k v ((j, w) ∷ m) h = ground (arith, insert_new k v m)

  -- The keys of `m` are not in `acc`.
  abbrev pub IsApart : Map V → Map V → Type ℓ
  IsApart acc [] = Unit {ℓ}
  IsApart acc ((k, v) ∷ m) = (lookup k acc ≡ none) × IsApart acc m

  IsApart-insert :
      (k : Bytes) (v : V) (acc m : Map V)
      → lookup k m ≡ none
      → IsApart acc m
      → IsApart (insert k v acc) m
  unfolding lookup
  IsApart-insert k v acc [] h a = tt
  IsApart-insert k v acc ((j, w) ∷ m) h a = elim (Bool-cases (bytes_eq j k)) [
    | inl e ↦ absurd (ground arith)
    | inr e ↦ (
      lookup-insert-none k j v acc (bytes_ne_sym j k e) a.0,
      IsApart-insert k v acc m (ground arith) a.1,
    )
  ]

  insert_all-append : (acc m : Map V) → IsDistinct m → IsApart acc m → insert_all acc m ≡ acc ++ m
  unfolding insert_all
  insert_all-append acc [] d a = sym (append-nil acc)
  insert_all-append acc ((k, v) ∷ m) d a =
      insert_all-append (insert k v acc) m d.1 (IsApart-insert k v acc m d.0 a.1)
      ∙ rw (insert_new k v acc a.0) (append_assoc acc ((k, v) ∷ []) m)

  IsApart-nil : (m : Map V) → IsApart [] m
  unfolding lookup
  IsApart-nil [] = tt
  IsApart-nil ((k, v) ∷ m) = (refl, IsApart-nil m)

  -- Copied pair by pair into an empty map, a map is the same.
  pub insert_all-nil : (m : Map V) → IsDistinct m → insert_all [] m ≡ m
  insert_all-nil m d = insert_all-append [] m d (IsApart-nil m)
