-- ===== src/Prelude/Words.antt =====
-- The bytes of an unsigned machine word in memory, least significant first, as
-- `reinterpret_cast<char *>` shows them, and reads from a byte stream.
use Prim.Native.Nat.{ℕ, zero, suc, ◌+◌, ◌*◌, ◌/◌, ◌%◌, ◌^◌, ◌<◌}
use mathlib.Core.Path.{◌≡◌, refl, ap}
use mathlib.Core.Option.{Option, none, some}
use mathlib.Core.List.{[], ◌∷◌, ◌++◌}
use native.Mathlib.Omega.{arith}
use native.Mathlib.Nat.{pow-suc}
use kv_store_project.Prelude.Lists.{length}
use kv_store_project.Prelude.Text.{Bytes}
use kv_store_project.Prelude.Tests.{Option-cases}
use mathlib.Core.Logic.{inl, inr}

infixl 5 ◌>>=◌
abbrev pub ◌>>=◌ {ℓ κ} : {A : Type ℓ} {B : Type κ} → Option A → (A → Option B) → Option B
none >>= f = none
some a >>= f = f a

-- The `k` bytes of the word `v`.
unfoldable pub le_bytes : ℕ → ℕ → Bytes
le_bytes zero v = []
le_bytes (suc k) v = v % 256 ∷ le_bytes k (v / 256)

-- The word that some bytes stand for.
unfoldable pub le_value : Bytes → ℕ
le_value [] = 0
le_value (b ∷ s) = b + 256 * le_value s

-- is.read(p, n): the bytes and what is left, `none` where the stream is too short.
unfoldable pub read : ℕ → Bytes → Option (Bytes × Bytes)
read zero s = some ([], s)
read (suc n) [] = none
read (suc n) (x ∷ s) = elim (read n s) [ none ↦ none | some (a, r) ↦ some (x ∷ a, r) ]

-- is.read of a word of `k` bytes
unfoldable pub read_word : ℕ → Bytes → Option (ℕ × Bytes)
read_word k s = elim (read k s) [ none ↦ none | some (a, r) ↦ some (le_value a, r) ]

pub length-le_bytes : (k v : ℕ) → length (le_bytes k v) ≡ k
unfolding le_bytes
length-le_bytes zero v = refl
length-le_bytes (suc k) v = ap suc (length-le_bytes k (v / 256))

pub le_value-le_bytes : (k v : ℕ) → v < 256 ^ k → le_value (le_bytes k v) ≡ v
unfolding le_bytes le_value
le_value-le_bytes zero v h = omega arith
le_value-le_bytes (suc k) v h =
    omega (arith, le_value-le_bytes k (v / 256) (omega (arith, pow-suc 256 k)))

pub read-append : (xs ys : Bytes) → read (length xs) (xs ++ ys) ≡ some (xs, ys)
unfolding read
read-append [] ys = refl
read-append (x ∷ xs) ys = rw (read-append xs ys)

pub read_word-le_bytes :
    (k v : ℕ) (s : Bytes) → v < 256 ^ k → read_word k (le_bytes k v ++ s) ≡ some (v, s)
unfolding read_word
read_word-le_bytes k v s h =
    let e : read k (le_bytes k v ++ s) ≡ some (le_bytes k v, s) =
      rw length-le_bytes at (read-append (le_bytes k v) s) in
    rw (e, read_word) (rw (le_value-le_bytes k v h))

-- A read that succeeds does the same with more bytes behind.
pub read-more :
    (n : ℕ) (s t a r : Bytes) → read n s ≡ some (a, r) → read n (s ++ t) ≡ some (a, r ++ t)
unfolding read
read-more zero s t a r h = ground arith
read-more (suc n) [] t a r h = cc
read-more (suc n) (x ∷ s) t a r h = elim (Option-cases (read n s)) [
  | inl e ↦ ground arith
  | inr ((b, q), e) ↦ rw (read-more n s t b q e) (ground arith)
]

pub read_word-more :
    (k : ℕ) (s t : Bytes) (v : ℕ) (r : Bytes)
    → read_word k s ≡ some (v, r)
    → read_word k (s ++ t) ≡ some (v, r ++ t)
unfolding read_word
read_word-more k s t v r h = elim (Option-cases (read k s)) [
  | inl e ↦ ground arith
  | inr ((a, q), e) ↦ rw (read-more k s t a q e, read_word) (ground arith)
]

-- What a read takes and leaves is what there was.
pub length-read : (n : ℕ) (s a r : Bytes) → read n s ≡ some (a, r) → length s ≡ n + length r
unfolding read
length-read zero s a r h = ground arith
length-read (suc n) [] a r h = cc
length-read (suc n) (x ∷ s) a r h = elim (Option-cases (read n s)) [
  | inl e ↦ ground arith
  | inr ((b, q), e) ↦ ground (arith, length-read n s b q e)
]

pub length-read_word :
    (k : ℕ) (s : Bytes) (v : ℕ) (r : Bytes) → read_word k s ≡ some (v, r) → length s ≡ k + length r
unfolding read_word
length-read_word k s v r h = elim (Option-cases (read k s)) [
  | inl e ↦ ground arith
  | inr ((a, q), e) ↦ ground (arith, length-read k s a q e)
]
