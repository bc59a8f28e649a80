-- ===== src/Raft/Apply/Commands.antt =====
-- A client's command comes back from its text as it went in.
use kv_store_project.Prelude.{◌≡◌, ◌≢◌, refl, Bool, [], ◌∷◌, ◌++◌, arith}
use kv_store_project.Prelude.Text.{Bytes, Lacks}
use kv_store_project.Prelude.Stream.{
  IsWord, next_word, next_word-append, next_word-space, get_line-Lacks,
}
use kv_store_project.KvStore.{KvStore}
use kv_store_project.Raft.Apply.{send_command, execute, run_command}

next_word-blank : (s : Bytes) → next_word (b' ' ∷ s) ≡ next_word s
next_word-blank s = next_word-space b' ' s refl

-- A command of one word, a key of one word, neither of them empty, and a value without a line feed
-- are executed as given, whatever blanks the value holds.
pub run_command-send_command :
    (can_open : Bool) (command key value : Bytes) (s : KvStore)
    → command ≢ []
    → IsWord command
    → key ≢ []
    → IsWord key
    → Lacks 10 value
    → run_command can_open (send_command command key value) s ≡ execute can_open command key value s
unfolding run_command
run_command-send_command can_open [] key value s hc wc hk wk l = absurd (hc refl)
run_command-send_command can_open (c ∷ command) [] value s hc wc hk wk l = absurd (hk refl)
run_command-send_command can_open (c ∷ command) (k ∷ key) value s hc wc hk wk l = rw (
  next_word-append c command b' ' ((k ∷ key) ++ (b' ' ∷ value)) wc refl,
  next_word-blank ((k ∷ key) ++ (b' ' ∷ value)),
  next_word-append k key b' ' value wk refl,
  get_line-Lacks 10 (b' ' ∷ value) (ground arith, l),
)
