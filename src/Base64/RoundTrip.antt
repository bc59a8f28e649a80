-- ===== src/Base64/RoundTrip.antt =====
-- Decoding what was encoded.
use native.Mathlib.Decide.{dec_lt}
use kv_store_project.Prelude.{
  ℕ, zero, suc, ◌+◌, ◌*◌, ◌/◌, ◌%◌, ◌^◌, ◌<◌, ◌≡◌, refl, sym, ◌∙◌, inl, inr, Bool-cases, Bool, true,
  false, if◌then◌else◌, ◌≤◌, [], ◌∷◌, ◌++◌, ◌==◌, length, length-append, All, arith, append-nil,
  append_assoc, replicate,
}
use kv_store_project.Prelude.Int.{ℤ, pos, negsuc, eq_ℤ, eq_ℤ_iff, ℤ-cases}
use kv_store_project.Prelude.Text.{Bytes}
use kv_store_project.Base64.{
  base64_char, sextet_of, decode_loop, encode_loop, pad_loop, base64_encode, base64_decode,
}

-- The table and the alphabet agree at the `count` places from `first` on.
inverse_from : ℕ → ℕ → Bool
inverse_from first zero = true
inverse_from first (suc count) =
    let rest = inverse_from (first + 1) count in
    if eq_ℤ (sextet_of (base64_char first)) (pos first) then rest else false

inverse_from-lt :
    (first count place : ℕ)
    → first ≤ place
    → place < first + count
    → inverse_from first count ≡ true
    → eq_ℤ (sextet_of (base64_char place)) (pos place) ≡ true
unfolding inverse_from
inverse_from-lt first zero place low high h = absurd (omega arith)
inverse_from-lt first (suc count) place low high h = elim (dec_lt first place) [
  | yes later ↦ ground (arith, inverse_from-lt (first + 1) count place)
  | no here ↦ let same : place ≡ first = omega arith in rw same (ground arith)
]

alphabet : inverse_from 0 64 ≡ true
unfolding inverse_from sextet_of base64_char
alphabet = refl

-- The table inverts the alphabet.
sextet_of-base64_char : (i : ℕ) → i < 64 → sextet_of (base64_char i) ≡ pos i
sextet_of-base64_char i h =
    (eq_ℤ_iff _ _).0 (inverse_from-lt 0 64 i (omega arith) (omega arith) alphabet)

-- `val` after the bytes `a`, `b` and `c`.
abbrev push_byte : ℕ → ℕ → ℕ
push_byte val c = (val * 256 + c) % 2 ^ 32

-- Three bytes give four characters, whatever `val` holds before them.
encode_loop-triple :
    (a b c : ℕ) (rest : Bytes) (val : ℕ)
    → a < 256
    → b < 256
    → c < 256
    → encode_loop (a ∷ b ∷ c ∷ rest) val (negsuc 5)
      ≡ base64_char (a / 4)
        ∷ base64_char (a % 4 * 16 + b / 16)
        ∷ base64_char (b % 16 * 4 + c / 64)
        ∷ base64_char (c % 64)
        ∷ encode_loop rest (push_byte (push_byte (push_byte val a) b) c) (negsuc 5)
unfolding encode_loop
encode_loop-triple a b c rest val ha hb hc = ground arith

encode_loop-pair :
    (a b : ℕ) (val : ℕ)
    → a < 256
    → b < 256
    → encode_loop (a ∷ b ∷ []) val (negsuc 5)
      ≡ base64_char (a / 4) ∷ base64_char (a % 4 * 16 + b / 16) ∷ base64_char (b % 16 * 4) ∷ []
unfolding encode_loop
encode_loop-pair a b val ha hb = ground arith

encode_loop-one :
    (a val : ℕ)
    → a < 256
    → encode_loop (a ∷ []) val (negsuc 5) ≡ base64_char (a / 4) ∷ base64_char (a % 4 * 16) ∷ []
unfolding encode_loop
encode_loop-one a val ha = ground arith

abbrev push_sextet : ℕ → ℕ → ℕ
push_sextet val t = (val * 64 + t) % 2 ^ 32

-- Four characters of the alphabet give three bytes.
decode_loop-quad :
    (i j k l : ℕ) (s : Bytes) (val : ℕ)
    → i < 64
    → j < 64
    → k < 64
    → l < 64
    → decode_loop (base64_char i ∷ base64_char j ∷ base64_char k ∷ base64_char l ∷ s) val (negsuc 7)
      ≡ (i * 4 + j / 16)
        ∷ (j % 16 * 16 + k / 4)
        ∷ (k % 4 * 64 + l)
        ∷ decode_loop s
            (push_sextet (push_sextet (push_sextet (push_sextet val i) j) k) l)
            (negsuc 7)
unfolding decode_loop
decode_loop-quad i j k l s val hi hj hk hl = ground (
  arith,
  sextet_of-base64_char i,
  sextet_of-base64_char j,
  sextet_of-base64_char k,
  sextet_of-base64_char l,
)

decode_loop-three :
    (i j k : ℕ) (val : ℕ)
    → i < 64
    → j < 64
    → k < 64
    → decode_loop (base64_char i ∷ base64_char j ∷ base64_char k ∷ []) val (negsuc 7)
      ≡ (i * 4 + j / 16) ∷ (j % 16 * 16 + k / 4) ∷ []
unfolding decode_loop
decode_loop-three i j k val hi hj hk =
    ground (arith, sextet_of-base64_char i, sextet_of-base64_char j, sextet_of-base64_char k)

decode_loop-two :
    (i j : ℕ) (val : ℕ)
    → i < 64
    → j < 64
    → decode_loop (base64_char i ∷ base64_char j ∷ []) val (negsuc 7) ≡ (i * 4 + j / 16) ∷ []
unfolding decode_loop
decode_loop-two i j val hi hj = ground (arith, sextet_of-base64_char i, sextet_of-base64_char j)

-- The loops undo one another from any accumulators.
decode_loop-encode_loop :
    (bytes : Bytes) (v w : ℕ)
    → All (λ c. c < 256) bytes
    → decode_loop (encode_loop bytes v (negsuc 5)) w (negsuc 7) ≡ bytes
decode_loop-encode_loop [] v w h = unfold encode_loop decode_loop in refl
decode_loop-encode_loop (a ∷ []) v w h =
    rw (encode_loop-one a v h.0, decode_loop-two (a / 4) (a % 4 * 16) w (omega arith) (omega arith))
      (ground arith)
decode_loop-encode_loop (a ∷ b ∷ []) v w h =
    rw
      (
        encode_loop-pair a b v h.0 h.1.0,
        decode_loop-three (a / 4) (a % 4 * 16 + b / 16) (b % 16 * 4) w (omega arith) (omega arith)
            (omega arith),
      )
      (ground arith)
decode_loop-encode_loop (a ∷ b ∷ c ∷ rest) v w h =
    rw
      (
        encode_loop-triple a b c rest v h.0 h.1.0 h.1.1.0,
        decode_loop-quad (a / 4) (a % 4 * 16 + b / 16) (b % 16 * 4 + c / 64) (c % 64) _ w
            (omega arith) (omega arith) (omega arith) (omega arith),
        decode_loop-encode_loop rest _ _ h.1.1.1,
      )
      (ground arith)

abbrev equals : ℕ → Bytes
equals k = replicate k b'='

equals-append : (k : ℕ) (s : Bytes) → (s ++ b'=' ∷ []) ++ equals k ≡ s ++ equals (suc k)
equals-append k s = append_assoc s (b'=' ∷ []) (equals k)

-- Padding only puts some `=` behind.
pad_loop-shape : (fuel : ℕ) (s : Bytes) → (k : ℕ) × (pad_loop fuel s ≡ s ++ equals k)
unfolding pad_loop
pad_loop-shape zero s = (0, sym (append-nil s))
pad_loop-shape (suc fuel) s = elim (Bool-cases (length s % 4 == 0)) [
  | inl e ↦ (0, rw e (sym (append-nil s)))
  | inr e ↦
      let (k, q) = pad_loop-shape fuel (s ++ b'=' ∷ []) in (suc k, rw e (q ∙ equals-append k s))
]

decode_loop-equals : (k val : ℕ) (valb : ℤ) → decode_loop (equals k) val valb ≡ []
unfolding decode_loop sextet_of
decode_loop-equals zero val valb = refl
decode_loop-equals (suc k) val valb = refl

-- The decoder stops at the padding.
decode_loop-append_equals :
    (s : Bytes) (k val : ℕ) (valb : ℤ)
    → decode_loop (s ++ equals k) val valb ≡ decode_loop s val valb
unfolding decode_loop
decode_loop-append_equals [] k val valb = decode_loop-equals k val valb
decode_loop-append_equals (c ∷ s) k val valb = elim (ℤ-cases (sextet_of c)) [
  | inl (t, e) ↦ rw (e, decode_loop) (rw (decode_loop-append_equals s k _ _))
  | inr (t, e) ↦ rw (e, decode_loop)
]

-- Decoding the encoding of any bytes below 256 gives the bytes back, padding included.
pub base64_decode-base64_encode :
    (bytes : Bytes) → All (λ c. c < 256) bytes → base64_decode (base64_encode bytes) ≡ bytes
unfolding base64_decode base64_encode
base64_decode-base64_encode bytes h =
    let (k, e) = pad_loop-shape 3 (encode_loop bytes 0 (negsuc 5)) in
    rw (e, decode_loop-append_equals) (decode_loop-encode_loop bytes 0 0 h)

length-pad_loop : (s : Bytes) → length (pad_loop 3 s) % 4 ≡ 0
unfolding pad_loop
length-pad_loop s = ground (
  arith,
  length-append s (b'=' ∷ []),
  length-append (s ++ b'=' ∷ []) (b'=' ∷ []),
  length-append ((s ++ b'=' ∷ []) ++ b'=' ∷ []) (b'=' ∷ []),
)

-- The number of characters of an encoding is a multiple of four.
pub length-base64_encode : (bytes : Bytes) → length (base64_encode bytes) % 4 ≡ 0
unfolding base64_encode
length-base64_encode bytes = length-pad_loop (encode_loop bytes 0 (negsuc 5))
