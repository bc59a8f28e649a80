-- ===== src/Base64.antt =====
-- src/decode_encodebase64.cpp. Bytes and characters are numbers below 256. The accumulator `val`
-- is a 32-bit `int` that both loops let overflow: it is kept as its bit pattern below 2 ^ 32, of
-- which `>>` and `&` read low bits only, the same for a negative value.
pub mod RoundTrip
mod Examples
use kv_store_project.Prelude.{
  ℕ, zero, suc, ◌+◌, ◌*◌, ◌/◌, ◌%◌, ◌^◌, Bool, List, [], ◌∷◌, ◌++◌, none, some, ◌==◌, length,
  get_elem?, set, replicate, if◌then◌else◌,
}
use kv_store_project.Prelude.Int.{ℤ, pos, negsuc, ◌+ℤ◌, ◌-ℤ◌, minus_one, ltb_ℤ}
use kv_store_project.Prelude.Text.{Bytes, codes}

abbrev base64_chars : Bytes
base64_chars = codes "ABCDEFGHIJKLMNOPQRSTUVWXYZabcdefghijklmnopqrstuvwxyz0123456789+/"

-- base64_chars[i]
base64_char : ℕ → ℕ
base64_char i = elim (get_elem? base64_chars i) [ none ↦ 0 | some c ↦ c ]

-- `for (int i = 0; i < 64; i++) T[base64_chars[i]] = i;`, over what is left of `base64_chars`
fill_table : Bytes → ℕ → List ℤ → List ℤ
fill_table [] i table = table
fill_table (c ∷ cs) i table = fill_table cs (i + 1) (set table c (pos i))

-- std::vector<int> T(256, -1), filled
decode_table : List ℤ
unfolding fill_table
decode_table = fill_table base64_chars 0 (replicate 256 minus_one)

-- T[c]; an `unsigned char` is a place of the table.
sextet_of : ℕ → ℤ
unfolding decode_table
sextet_of c = elim (get_elem? decode_table c) [ none ↦ minus_one | some t ↦ t ]

-- The body of the loop of base64Decode for one character whose entry is `t`: the byte that it
-- gives out, if any, and the new `val` and `valb`.
decode_step : ℕ → ℕ → ℤ → Bytes × ℕ × ℤ
decode_step t val (pos n) =
    let val' = (val * 64 + t) % 2 ^ 32 in
    (val' / 2 ^ (n + 6) % 256 ∷ [], val', pos (n + 6) -ℤ pos 8)
decode_step t val (negsuc n) =
    let val' = (val * 64 + t) % 2 ^ 32 in
    elim (negsuc n +ℤ pos 6) [
      | pos k ↦ (val' / 2 ^ k % 256 ∷ [], val', pos k -ℤ pos 8)
      | negsuc k ↦ ([], val', negsuc k)
    ]

-- The loop breaks at the first character outside the alphabet.
decode_loop : Bytes → ℕ → ℤ → Bytes
unfolding decode_step
decode_loop [] val valb = []
decode_loop (c ∷ s) val valb = elim (sextet_of c) [
  | negsuc _ ↦ []
  | pos t ↦ let (out, val', valb') = decode_step t val valb in out ++ decode_loop s val' valb'
]

pub base64_decode : Bytes → Bytes
base64_decode s = decode_loop s 0 (negsuc 7)

-- `while (valb >= 0) { push_back(base64_chars[(val >> valb) & 0x3F]); valb -= 6; }`. Each round
-- takes 6 off `valb`, so `valb + 1` rounds are enough.
sextet_loop : ℕ → ℕ → ℤ → Bytes × ℤ
sextet_loop fuel val (negsuc n) = ([], negsuc n)
sextet_loop zero val (pos n) = ([], pos n)
sextet_loop (suc fuel) val (pos n) =
    let (out, valb) = sextet_loop fuel val (pos n -ℤ pos 6) in
    (base64_char (val / 2 ^ n % 64) ∷ out, valb)

abbrev rounds : ℤ → ℕ
rounds (pos n) = suc n
rounds (negsuc n) = 0

-- The loop over the bytes, and the last character for the bits that are left.
encode_loop : Bytes → ℕ → ℤ → Bytes
unfolding sextet_loop
encode_loop [] val valb =
    if ltb_ℤ (negsuc 5) valb
    then elim (valb +ℤ pos 8) [
      | pos k ↦ base64_char (val * 256 % 2 ^ 32 / 2 ^ k % 64) ∷ []
      | negsuc _ ↦ []
    ]
    else []
encode_loop (c ∷ bytes) val valb =
    let val' = (val * 256 + c) % 2 ^ 32 in
    let (out, valb') = sextet_loop (rounds (valb +ℤ pos 8)) val' (valb +ℤ pos 8) in
    out ++ encode_loop bytes val' valb'

-- `while (encoded.size() % 4) encoded.push_back('=');`: three rounds at most.
pad_loop : ℕ → Bytes → Bytes
pad_loop zero s = s
pad_loop (suc fuel) s =
    let rest = pad_loop fuel (s ++ b'=' ∷ []) in if length s % 4 == 0 then s else rest

pub base64_encode : Bytes → Bytes
base64_encode bytes = pad_loop 3 (encode_loop bytes 0 (negsuc 5))
