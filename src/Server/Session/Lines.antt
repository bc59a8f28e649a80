-- ===== src/Server/Session/Lines.antt =====
-- A line that writes: what the client types is what the state machine stores.
use kv_store_project.Prelude.{
  ℕ, ◌≡◌, refl, ap, ◌∙◌, Bool, true, false, ◌||◌, [], ◌∷◌, ◌++◌, none, arith, ◌==◌, append_assoc,
  zero, suc, length,
}
use kv_store_project.Prelude.Text.{Bytes, is_empty, codes, bytes_eq, Lacks}
use kv_store_project.Prelude.Map
use kv_store_project.Prelude.Stream.{
  is_space, skip_space, IsWord, next_word, next_word-append, get_line-Lacks,
}
use kv_store_project.KvStore.{KvStore, put}
use kv_store_project.Raft.Apply.{send_command, execute, run_command}
use kv_store_project.Raft.Apply.Commands.{run_command-send_command}
use kv_store_project.Server.Parse.{
  to_upper, is_blank, trim_left, trim_right, trim, parse_value, value_at, is_key_option, parse_put,
  entry, usage, parse_key_value_format, parse_options, resolve_command_alias,
}
use kv_store_project.Server.Session.{
  Session, runs, Command, run_line, run_word, handle_line, dispatch,
}

is_empty-append : (s t : Bytes) → is_empty t ≡ false → is_empty (s ++ t) ≡ false
is_empty-append [] t h = h
is_empty-append (c ∷ s) t h = refl

trim_right-append :
    (s t : Bytes) → is_empty t ≡ false → trim_right t ≡ t → trim_right (s ++ t) ≡ s ++ t
unfolding trim_right
trim_right-append [] t some_left h = h
trim_right-append (c ∷ s) t some_left h =
    rw (trim_right-append s t some_left h) (ground (arith, is_empty-append s t some_left))

skip_space-word : (c : ℕ) (s : Bytes) → is_space c ≡ false → skip_space (c ∷ s) ≡ c ∷ s
unfolding skip_space
skip_space-word c s h = rw h

skip_blank : (s : Bytes) → skip_space (b' ' ∷ s) ≡ skip_space s
unfolding skip_space
skip_blank s = refl

-- The line of a client
abbrev pub put_line : Bytes → Bytes → Bytes
put_line key value = codes "PUT" ++ (b' ' ∷ (key ++ (b' ' ∷ value)))

-- A value behind its first character that is read as it stands: that is neither a blank nor a
-- quote, the last one is no blank, and there is no line feed.
pub record IsPlain (c : ℕ) (s : Bytes) : Type 0 where
  pub solid : is_space c ≡ false
  pub bare : (c == b'"') || (c == 39) ≡ false
  pub ends : trim_right (c ∷ s) ≡ c ∷ s
  pub one_line : Lacks 10 (c ∷ s)

trim_solid :
    (c : ℕ) (s : Bytes) → is_space c ≡ false → trim_right (c ∷ s) ≡ c ∷ s → trim (c ∷ s) ≡ c ∷ s
unfolding trim
trim_solid c s solid ends = let kept : is_blank c ≡ false = ground (arith, solid) in rw kept ends

parse_value_plain : (c : ℕ) (s : Bytes) → IsPlain c s → parse_value (c ∷ s) ≡ (c ∷ s, [])
unfolding parse_value
parse_value_plain c s h =
    let line = get_line-Lacks 10 (c ∷ s) h.one_line in
    let whole = trim_solid c s h.solid h.ends in
    rw (skip_space-word c s h.solid, line, whole) (ground (arith, h.bare))

-- The arguments of PUT are the key and the value.
parse_put_plain :
    (k : ℕ) (key : Bytes) (c : ℕ) (value : Bytes)
    → IsWord (k ∷ key)
    → is_key_option (k ∷ key) ≡ false
    → IsPlain c value
    → parse_put (b' ' ∷ ((k ∷ key) ++ (b' ' ∷ c ∷ value))) ≡ entry (k ∷ key) (c ∷ value)
unfolding parse_put
parse_put_plain k key c value word named plain =
    let arguments = (k ∷ key) ++ (b' ' ∷ c ∷ value) in
    let start = skip_blank arguments ∙ skip_space-word k (key ++ (b' ' ∷ c ∷ value)) word.0 in
    let split = next_word-append k key b' ' (c ∷ value) word refl in
    let behind = skip_blank (c ∷ value) ∙ skip_space-word c value plain.solid in
    rw (start, split, behind, parse_value_plain c value plain, named)

trim_line :
    (key : Bytes) (c : ℕ) (value : Bytes)
    → IsPlain c value
    → trim (put_line key (c ∷ value)) ≡ put_line key (c ∷ value)
unfolding trim trim_left
trim_line key c value plain =
    let joined : (key ++ (b' ' ∷ [])) ++ (c ∷ value) ≡ key ++ (b' ' ∷ c ∷ value) =
      append_assoc key (b' ' ∷ []) (c ∷ value) in
    let kept =
      trim_right-append (codes "PUT" ++ (b' ' ∷ (key ++ (b' ' ∷ [])))) (c ∷ value) refl
        plain.ends in
    rw joined at kept

-- A line `PUT key value` leads to a request with this key and this value, and the command that the
-- leader makes of the request, read again by the state machine, stores this value under this key.
-- The key is a word that is not the option `--key` or `-k`; the value starts neither with a blank
-- nor with a quote, does not end in a blank, and is on one line.
pub put_line_stored :
    (s : Session) (can_open : Bool) (store : KvStore) (k : ℕ) (key : Bytes) (c : ℕ) (value : Bytes)
    → IsWord (k ∷ key)
    → is_key_option (k ∷ key) ≡ false
    → IsPlain c value
    → ((handle_line s (put_line (k ∷ key) (c ∷ value))).1
        ≡ runs none (Command.put (entry (k ∷ key) (c ∷ value))))
      × (run_command can_open (send_command (codes "PUT") (k ∷ key) (c ∷ value)) store
          ≡ (put can_open (k ∷ key) (c ∷ value) store, codes "OK"))
unfolding handle_line run_word run_line dispatch resolve_command_alias bytes_eq execute Map.lookup
put_line_stored s can_open store k key c value word named plain =
    let line = put_line (k ∷ key) (c ∷ value) in
    let split =
      next_word-append b'P' (codes "UT") b' ' ((k ∷ key) ++ (b' ' ∷ c ∷ value))
        (refl, (refl, (refl, tt))) refl in
    (
      rw (trim_line (k ∷ key) c value plain, split, parse_put_plain k key c value word named plain),
      run_command-send_command can_open (codes "PUT") (k ∷ key) (c ∷ value) store
          (λ h. absurd (cc h)) (refl, (refl, (refl, tt))) (λ h. absurd (cc h)) word plain.one_line,
    )

parse_value_blank : (c : ℕ) (s : Bytes) → IsPlain c s → parse_value (b' ' ∷ c ∷ s) ≡ (c ∷ s, [])
unfolding parse_value
parse_value_blank c s plain = ap value_at (skip_blank (c ∷ s)) ∙ parse_value_plain c s plain

-- A round that reads the option `--key`
parse_options-key :
    (rounds : ℕ) (s token rest key value found rest' : Bytes)
    → next_word s ≡ (token, rest)
    → is_empty token ≡ false
    → is_key_option token ≡ true
    → parse_value rest ≡ (found, rest')
    → parse_options (suc rounds) s key value ≡ parse_options rounds rest' found value
unfolding parse_options
parse_options-key rounds s token rest key value found rest' word some_left named value_at =
    rw (word, value_at, some_left, named)

parse_options-end :
    (rounds : ℕ) (key value : Bytes) → parse_options rounds [] key value ≡ (key, value)
unfolding parse_options next_word
parse_options-end zero key value = refl
parse_options-end (suc rounds) key value = refl

parse_options_named :
    (rounds c : ℕ) (s : Bytes)
    → IsPlain c s
    → parse_options (suc rounds) (codes "--key " ++ (c ∷ s)) [] [] ≡ (c ∷ s, [])
unfolding to_upper bytes_eq
parse_options_named rounds c s plain =
    let split =
      next_word-append b'-' (codes "-key") b' ' (c ∷ s) (refl, (refl, (refl, (refl, (refl, tt)))))
        refl in
    parse_options-key rounds (codes "--key " ++ (c ∷ s)) (codes "--key") (b' ' ∷ c ∷ s) [] []
      (c ∷ s) [] split refl refl (parse_value_blank c s plain)
    ∙ parse_options-end rounds (c ∷ s) []

-- The named form as the help text shows it, without quotes, is answered with the usage text: the
-- value of `--key` takes the rest of the line, the option `--value` with it.
pub parse_put_named :
    (c : ℕ) (s : Bytes) → IsPlain c s → parse_put (codes " --key " ++ (c ∷ s)) ≡ usage
unfolding parse_put parse_key_value_format bytes_eq to_upper
parse_put_named c s plain =
    let start =
      skip_blank (codes "--key " ++ (c ∷ s))
      ∙ skip_space-word b'-' (codes "-key " ++ (c ∷ s)) refl in
    let split =
      next_word-append b'-' (codes "-key") b' ' (c ∷ s) (refl, (refl, (refl, (refl, (refl, tt)))))
        refl in
    let named = parse_options_named (length (codes "-key " ++ (c ∷ s))) c s plain in
    rw (start, split, named)
