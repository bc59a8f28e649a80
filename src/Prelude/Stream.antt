-- ===== src/Prelude/Stream.antt =====
-- Formatted input of std::istringstream, on the bytes that are not read yet.
use Prim.Native.Nat.{ℕ}
use mathlib.Core.Path.{◌≡◌, refl}
use mathlib.Core.Bool.{Bool, true, false, ◌&&◌, ◌||◌}
use mathlib.Core.List.{[], ◌∷◌, ◌++◌}
use native.Mathlib.Omega.{arith}
use kv_store_project.Prelude.Tests.{leb, ◌==◌, if◌then◌else◌}
use kv_store_project.Prelude.Lists.{All}
use kv_store_project.Prelude.Text.{Bytes, Lacks}

-- std::isspace in the "C" locale
abbrev pub is_space : ℕ → Bool
is_space c = c == 32 || (leb 9 c && leb c 13)

-- iss >> std::ws
unfoldable pub skip_space : Bytes → Bytes
skip_space [] = []
skip_space (c ∷ s) = let rest = skip_space s in if is_space c then rest else c ∷ s

unfoldable pub take_word : Bytes → Bytes × Bytes
take_word [] = ([], [])
take_word (c ∷ s) =
    let (word, rest) = take_word s in if is_space c then ([], c ∷ s) else (c ∷ word, rest)

-- iss >> word: the word, empty where there is none, and what is left.
unfoldable pub next_word : Bytes → Bytes × Bytes
unfolding skip_space take_word
next_word s = take_word (skip_space s)

-- std::getline(iss, line, delimiter): the line, and what is left behind the delimiter.
unfoldable pub get_line : ℕ → Bytes → Bytes × Bytes
get_line delimiter [] = ([], [])
get_line delimiter (c ∷ s) =
    let (line, rest) = get_line delimiter s in if c == delimiter then ([], s) else (c ∷ line, rest)

-- A text that `>>` reads in one go.
abbrev pub IsWord : Bytes → Type 0
IsWord s = All (λ c. is_space c ≡ false) s

take_word-append :
    (s : Bytes) (c : ℕ) (rest : Bytes)
    → IsWord s
    → is_space c ≡ true
    → take_word (s ++ c ∷ rest) ≡ (s, c ∷ rest)
unfolding take_word
take_word-append [] c rest h b = ground arith
take_word-append (x ∷ s) c rest h b = ground (arith, take_word-append s c rest h.1 b)

-- A word in front of a blank is read whole.
pub next_word-append :
    (x : ℕ) (s : Bytes) (c : ℕ) (rest : Bytes)
    → IsWord (x ∷ s)
    → is_space c ≡ true
    → next_word ((x ∷ s) ++ c ∷ rest) ≡ (x ∷ s, c ∷ rest)
unfolding next_word
next_word-append x s c rest h b = ground (arith, take_word-append (x ∷ s) c rest h b)

-- Blanks in front of a word do not count.
pub next_word-space : (c : ℕ) (s : Bytes) → is_space c ≡ true → next_word (c ∷ s) ≡ next_word s
unfolding next_word
next_word-space c s b = ground arith

-- A text without the delimiter is a line.
pub get_line-Lacks : (d : ℕ) (s : Bytes) → Lacks d s → get_line d s ≡ (s, [])
unfolding get_line
get_line-Lacks d [] h = refl
get_line-Lacks d (c ∷ s) h = ground (arith, get_line-Lacks d s h.1)
