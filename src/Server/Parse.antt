-- ===== src/Server/Parse.antt =====
-- The parsers of src/server.cpp: trim, toUpper, parseValue, parseKeyValueFormat,
-- resolveCommandAlias and the arguments of PUT, and std::stoi. A stream is what is left of it to
-- read; a read that finds nothing leaves an empty text.
use kv_store_project.Prelude.{
  ℕ, zero, suc, ◌+◌, ◌-◌, ◌*◌, ◌^◌, Bool, true, false, ◌&&◌, ◌||◌, [], ◌∷◌, Option, none, some, ltb,
  leb, ◌==◌, length, if◌then◌else◌, map,
}
use kv_store_project.Prelude.Int.{ℤ, pos, sub_ℕ}
use kv_store_project.Prelude.Text.{Bytes, is_empty, codes, bytes_eq}
use kv_store_project.Prelude.Map
use kv_store_project.Prelude.Map.{Map}
use kv_store_project.Prelude.Stream.{skip_space, next_word, get_line}

-- " \t\n\r"
abbrev pub is_blank : ℕ → Bool
is_blank c = c == 32 || c == 9 || c == 10 || c == 13

-- From the first character that is no blank on
unfoldable pub trim_left : Bytes → Bytes
trim_left [] = []
trim_left (c ∷ s) = let rest = trim_left s in if is_blank c then rest else c ∷ s

-- Up to the last character that is no blank
unfoldable pub trim_right : Bytes → Bytes
trim_right [] = []
trim_right (c ∷ s) = let rest = trim_right s in if is_blank c && is_empty rest then [] else c ∷ rest

unfoldable pub trim : Bytes → Bytes
unfolding trim_left trim_right
trim s = trim_right (trim_left s)

-- ::toupper in the "C" locale
abbrev pub upper : ℕ → ℕ
upper c = if leb b'a' c && leb c b'z' then c - 32 else c

unfoldable pub to_upper : Bytes → Bytes
to_upper s = map upper s

-- The value behind what was read: up to the closing quote, or to the end of the line.
abbrev pub value_at : Bytes → Bytes × Bytes
value_at [] = ([], [])
value_at (c ∷ s) =
    let (line, rest) = get_line 10 (c ∷ s) in
    if c == b'"' then get_line b'"' s else if c == 39 then get_line 39 s else (trim line, rest)

unfoldable pub parse_value : Bytes → Bytes × Bytes
unfolding trim
parse_value s = value_at (skip_space s)

abbrev pub is_key_option : Bytes → Bool
is_key_option token =
    bytes_eq (to_upper token) (codes "--KEY") || bytes_eq (to_upper token) (codes "-K")

abbrev pub is_value_option : Bytes → Bool
is_value_option token =
    bytes_eq (to_upper token) (codes "--VALUE") || bytes_eq (to_upper token) (codes "-V")

-- The loop over the tokens, with the key and the value as they are so far. Each round reads at
-- least one character, so the length of the text is enough rounds.
unfoldable pub parse_options : ℕ → Bytes → Bytes → Bytes → Bytes × Bytes
unfolding parse_value to_upper
parse_options zero s key value = (key, value)
parse_options (suc rounds) s key value =
    let (token, rest) = next_word s in
    let (found, rest') = parse_value rest in
    let after_key = parse_options rounds rest' found value in
    let after_value = parse_options rounds rest' key found in
    let after_other = parse_options rounds rest key value in
    if is_empty token
    then (key, value)
    else if is_key_option token
    then after_key
    else if is_value_option token
    then after_value
    else after_other

-- parseKeyValueFormat, with the key and the value that it leaves
unfoldable pub parse_key_value_format : Bytes → Bytes × Bytes
parse_key_value_format s = parse_options (length s) s [] []

abbrev pub aliases : Map Bytes
aliases =
    (codes "G", codes "GET")
    ∷ (codes "RETRIEVE", codes "GET")
    ∷ (codes "FETCH", codes "GET")
    ∷ (codes "READ", codes "GET")
    ∷ (codes "P", codes "PUT")
    ∷ (codes "SET", codes "PUT")
    ∷ (codes "ADD", codes "PUT")
    ∷ (codes "UPDATE", codes "PUT")
    ∷ (codes "WRITE", codes "PUT")
    ∷ (codes "D", codes "DELETE")
    ∷ (codes "DEL", codes "DELETE")
    ∷ (codes "REMOVE", codes "DELETE")
    ∷ (codes "RM", codes "DELETE")
    ∷ (codes "H", codes "HELP")
    ∷ (codes "?", codes "HELP")
    ∷ (codes "Q", codes "EXIT")
    ∷ (codes "QUIT", codes "EXIT")
    ∷ (codes "BYE", codes "EXIT")
    ∷ (codes "S", codes "STATUS")
    ∷ (codes "M", codes "METRICS")
    ∷ []

unfoldable pub resolve_command_alias : Bytes → Bytes
unfolding to_upper
resolve_command_alias cmd = elim (Map.lookup (to_upper cmd) aliases) [
  | none ↦ to_upper cmd
  | some name ↦ name
]

abbrev pub is_digit : ℕ → Bool
is_digit c = leb b'0' c && leb c b'9'

-- The value of the digits in front, behind a number read so far
unfoldable pub digits_value : ℕ → Bytes → ℕ
digits_value n [] = n
digits_value n (c ∷ s) =
    let rest = digits_value (n * 10 + (c - b'0')) s in if is_digit c then rest else n

abbrev pub starts_with_digit : Bytes → Bool
starts_with_digit [] = false
starts_with_digit (c ∷ s) = is_digit c

-- The digits behind a sign: `none` where there are none, and where an `int` cannot hold the value.
abbrev pub signed_value : Bool → Bytes → Option ℤ
signed_value negative s =
    let n = digits_value 0 s in
    if starts_with_digit s
    then (if negative
        then (if leb n (2 ^ 31) then some (sub_ℕ 0 n) else none)
        else if ltb n (2 ^ 31)
        then some (pos n)
        else none)
    else none

-- std::stoi of a text with no blank in front; `none` where it throws.
unfoldable pub stoi : Bytes → Option ℤ
unfolding digits_value
stoi [] = none
stoi (c ∷ s) =
    if c == b'-'
    then signed_value true s
    else if c == b'+'
    then signed_value false s
    else signed_value false (c ∷ s)

-- What the arguments of PUT say: a usage text, or a key and a value.
pub data PutArguments : Type 0 where
  named_usage : PutArguments
  usage : PutArguments
  entry : Bytes → Bytes → PutArguments

-- The test behind both forms
abbrev pub check_entry : Bytes × Bytes → PutArguments
check_entry (key, value) = if is_empty key || is_empty value then usage else entry key value

unfoldable pub parse_put : Bytes → PutArguments
unfolding parse_value
parse_put s =
    let start = skip_space s in
    let (key, rest) = next_word start in
    let (value, rest') = parse_value (skip_space rest) in
    let named = parse_key_value_format start in
    if is_key_option key
    then (if is_empty named.0 then named_usage else check_entry named)
    else check_entry (key, value)
