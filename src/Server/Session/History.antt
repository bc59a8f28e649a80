-- ===== src/Server/Session/History.antt =====
-- Lines that repeat a line.
use kv_store_project.Prelude.{
  ◌+◌, ◌-◌, ◌≡◌, refl, ap, ◌∙◌, true, false, List, [], ◌∷◌, ◌++◌, some, arith, leb, length,
  length-append, get_elem?, append_assoc,
}
use kv_store_project.Prelude.Text.{Bytes, is_empty, codes, bytes_eq}
use kv_store_project.Prelude.Stream.{next_word}
use kv_store_project.Server.Session.{Session, run_line, repeat_line, run_word, handle_line}

get_elem?-before_last :
    (front : List Bytes) (a b : Bytes) → get_elem? (front ++ a ∷ b ∷ []) (length front) ≡ some a
get_elem?-before_last [] a b = refl
get_elem?-before_last (x ∷ front) a b = get_elem?-before_last front a b

-- The variables after the line
abbrev pub after_line : Session → Bytes → Session
after_line s line = record s {
  history = s.history ++ line ∷ [];
  command_count = s.command_count + 1;
  requests = s.requests + 1;
}

run_word_repeats :
    (s : Session) (line rest : Bytes)
    → leb 2 (length s.history) ≡ true
    → get_elem? s.history (length s.history - 2) ≡ some line
    → run_word s (codes "!!") rest ≡ repeat_line s (codes "!!") line
unfolding run_word bytes_eq
run_word_repeats s line rest two found = rw (two, found)

repeat_line-word :
    (s : Session) (old line : Bytes)
    → is_empty (next_word line).0 ≡ false
    → repeat_line s old line ≡ run_line s (some line) (next_word line).0 (next_word line).1
unfolding repeat_line
repeat_line-word s old line word = rw word

-- `!!` runs the last line again with its own arguments, where that has a word. It is itself kept in
-- the history, so a second `!!` runs the line `!!`, which is no command.
pub handle_line_repeats :
    (s : Session) (front : List Bytes) (line : Bytes)
    → s.history ≡ front ++ line ∷ []
    → is_empty (next_word line).0 ≡ false
    → let s' = after_line s (codes "!!") in
      handle_line s (codes "!!")
      ≡ (s', run_line s' (some line) (next_word line).0 (next_word line).1)
unfolding handle_line next_word
handle_line_repeats s front line last word =
    let s' = after_line s (codes "!!") in
    let kept : s'.history ≡ front ++ line ∷ codes "!!" ∷ [] =
      ap (λ h. h ++ codes "!!" ∷ []) last ∙ append_assoc front (line ∷ []) (codes "!!" ∷ []) in
    let size : length s'.history ≡ length front + 2 =
      ap length kept ∙ length-append front (line ∷ codes "!!" ∷ []) in
    let two : leb 2 (length s'.history) ≡ true = ground (arith, size) in
    let place : length s'.history - 2 ≡ length front = omega (arith, size) in
    let found : get_elem? s'.history (length s'.history - 2) ≡ some line =
      ap (λ h. get_elem? h (length s'.history - 2)) kept
      ∙ ap (λ i. get_elem? (front ++ line ∷ codes "!!" ∷ []) i) place
      ∙ get_elem?-before_last front line (codes "!!") in
    ap (λ a. (s', a))
      (run_word_repeats s' line [] two found ∙ repeat_line-word s' (codes "!!") line word)
