-- ===== src/Raft/Rpc/Sample.antt =====
-- A small library of documents that keeps the laws: a document is a number, a truth value, a text,
-- or a chain of named values, and its text is a prefix code.
use kv_store_project.Prelude.{
  ℕ, zero, suc, ◌≤◌, ◌≡◌, refl, ap, Bool, true, false, List, [], ◌∷◌, ◌++◌, Option, none, some,
  arith, leb, ◌==◌, length, take, drop, if◌then◌else◌, append-nil, append_assoc, length-append,
}
use kv_store_project.Prelude.Int.{ℤ, pos, negsuc}
use kv_store_project.Prelude.Text.{Bytes}
use kv_store_project.Prelude.Map
use kv_store_project.Prelude.Map.{Map}
use kv_store_project.Raft.Rpc.Library.{Library, IsLawful}

pub data Doc : Type 0 where
  empty void : Doc
  num : ℤ → Doc
  flag : Bool → Doc
  txt : Bytes → Doc
  field : Bytes → Doc → Doc → Doc

abbrev of_map : Map Doc → Doc
of_map [] = empty
of_map ((k, d) ∷ m) = field k d (of_map m)

abbrev of_list : List Doc → Doc
of_list [] = empty
of_list (d ∷ ds) = field [] d (of_list ds)

abbrev to_list : Doc → List Doc
to_list (field k d rest) = d ∷ to_list rest
to_list _ = []

-- The members of an object; `none` for any other document
abbrev members : Doc → Option (Map Doc)
members empty = some []
members (field k d rest) = elim (members rest) [ none ↦ none | some m ↦ some ((k, d) ∷ m) ]
members _ = none

members-of_map : (m : Map Doc) → members (of_map m) ≡ some m
members-of_map [] = refl
members-of_map ((k, d) ∷ m) = rw (members, members-of_map m) refl

to_list-of_list : (ds : List Doc) → to_list (of_list ds) ≡ ds
to_list-of_list [] = refl
to_list-of_list (d ∷ ds) = rw (to_list, to_list-of_list ds) refl

abbrev as_int : Doc → Option ℤ
as_int (num n) = some n
as_int _ = none

abbrev as_bool : Doc → Option Bool
as_bool (flag b) = some b
as_bool _ = none

abbrev as_text : Doc → Option Bytes
as_text (txt s) = some s
as_text _ = none

abbrev found {ℓ} : {A : Type ℓ} → (Doc → Option A) → Option A → Option Doc → Option A
found get default none = default
found get default (some d) = get d

abbrev member {ℓ} : {A : Type ℓ} → (Doc → Option A) → Option A → Bytes → Doc → Option A
member get default k d = elim (members d) [
  | none ↦ none
  | some m ↦ found get default (Map.lookup k m)
]

member-of_map {ℓ} :
    {A : Type ℓ} (get : Doc → Option A) (default : Option A) (k : Bytes) (m : Map Doc)
    → member get default k (of_map m) ≡ found get default (Map.lookup k m)
member-of_map get default k m = rw (member, members-of_map m) refl

abbrev encode : Doc → Bytes
encode empty = 0 ∷ []
encode void = 1 ∷ []
encode (num (pos n)) = 2 ∷ n ∷ []
encode (num (negsuc n)) = 3 ∷ n ∷ []
encode (flag false) = 4 ∷ 0 ∷ []
encode (flag true) = 4 ∷ 1 ∷ []
encode (txt s) = 5 ∷ length s ∷ s
encode (field k d rest) = 6 ∷ length k ∷ (k ++ (encode d ++ encode rest))

abbrev counted : Bytes → Option (Bytes × Bytes)
counted [] = none
counted (n ∷ t) = if leb n (length t) then some (take n t, drop n t) else none

abbrev leaf : ℕ → Bytes → Option (Doc × Bytes)
leaf tag [] = none
leaf tag (n ∷ t) =
    if tag == 2
    then some (num (pos n), t)
    else if tag == 3
    then some (num (negsuc n), t)
    else if tag == 4
    then some (flag (n == 1), t)
    else none

decode : ℕ → Bytes → Option (Doc × Bytes)
decode zero t = none
decode (suc fuel) [] = none
decode (suc fuel) (tag ∷ t) =
    let chain : Option (Doc × Bytes) = elim (counted t) [
      | none ↦ none
      | some (k, t1) ↦ elim (decode fuel t1) [
        | none ↦ none
        | some (d, t2) ↦ elim (decode fuel t2) [
          | none ↦ none
          | some (rest, t3) ↦ some (field k d rest, t3)
        ]
      ]
    ] in
    if tag == 0
    then some (empty, t)
    else if tag == 1
    then some (void, t)
    else if tag == 5
    then elim (counted t) [ none ↦ none | some (s, t1) ↦ some (txt s, t1) ]
    else if tag == 6
    then chain
    else leaf tag t

take-append : (s t : Bytes) → take (length s) (s ++ t) ≡ s
take-append [] t = refl
take-append (c ∷ s) t = ap (λ (l : Bytes). c ∷ l) (take-append s t)

drop-append : (s t : Bytes) → drop (length s) (s ++ t) ≡ t
drop-append [] t = refl
drop-append (c ∷ s) t = drop-append s t

counted-append : (s t : Bytes) → counted (length s ∷ (s ++ t)) ≡ some (s, t)
counted-append s t =
    let room : leb (length s) (length (s ++ t)) ≡ true = ground (arith, length-append s t) in
    rw (counted, room, take-append s t, drop-append s t) refl

encode-positive : (d : Doc) → 1 ≤ length (encode d)
encode-positive empty = omega arith
encode-positive void = omega arith
encode-positive (num (pos n)) = omega arith
encode-positive (num (negsuc n)) = omega arith
encode-positive (flag false) = omega arith
encode-positive (flag true) = omega arith
encode-positive (txt s) = omega arith
encode-positive (field k d rest) = omega arith

decode-encode :
    (d : Doc) (fuel : ℕ) (t : Bytes)
    → length (encode d) ≤ fuel
    → decode fuel (encode d ++ t) ≡ some (d, t)
unfolding decode
decode-encode d zero t le = absurd (omega (arith, encode-positive d))
decode-encode empty (suc fuel) t le = refl
decode-encode void (suc fuel) t le = refl
decode-encode (num (pos n)) (suc fuel) t le = refl
decode-encode (num (negsuc n)) (suc fuel) t le = refl
decode-encode (flag false) (suc fuel) t le = refl
decode-encode (flag true) (suc fuel) t le = refl
decode-encode (txt s) (suc fuel) t le = rw (decode, counted-append s t) refl
decode-encode (field k d rest) (suc fuel) t le =
    let sizes = length-append k (encode d ++ encode rest) in
    let sizes' = length-append (encode d) (encode rest) in
    rw
      (
        decode,
        append_assoc k (encode d ++ encode rest) t,
        append_assoc (encode d) (encode rest) t,
        counted-append k (encode d ++ (encode rest ++ t)),
        decode-encode d fuel (encode rest ++ t) (omega (arith, le, sizes, sizes')),
        decode-encode rest fuel t (omega (arith, le, sizes, sizes')),
      )
      refl

whole : Option (Doc × Bytes) → Option Doc
whole (some (d, [])) = some d
whole _ = none

unfoldable pub parse : Bytes → Option Doc
unfolding decode whole
parse t = whole (decode (length t) t)

parse-encode : (d : Doc) → parse (encode d) ≡ some d
unfolding parse whole
parse-encode d =
    let e = decode-encode d (length (encode d)) [] (omega arith) in
    rw (append-nil (encode d)) at (ap whole e)

abbrev pub sample : Library
sample = record {
  Json = Doc;
  parse = parse;
  dump = λ d. some (encode d);
  int = num;
  bool = flag;
  text = txt;
  array = of_list;
  object = of_map;
  null = void;
  value_int = λ k d. member as_int (some d) k;
  value_bool = λ k d. member as_bool (some d) k;
  value_text = λ k d. member as_text (some d) k;
  value_array = λ k. member (λ d. some (to_list d)) (some []) k;
  at_int = λ k. member as_int none k;
  at_text = λ k. member as_text none k;
  at = λ k. member some none k;
}

pub sample-IsLawful : IsLawful sample
unfolding parse whole decode
sample-IsLawful = record {
  parse-dump = λ j t e. cc (parse-encode j);
  parse-nil = refl;
  value_int-object = λ k d n m e. rw (member-of_map as_int (some d) k m, e) refl;
  value_int-default = λ k d m e. rw (member-of_map as_int (some d) k m, e) refl;
  value_bool-object = λ k d b m e. rw (member-of_map as_bool (some d) k m, e) refl;
  value_bool-default = λ k d m e. rw (member-of_map as_bool (some d) k m, e) refl;
  value_text-object = λ k d s m e. rw (member-of_map as_text (some d) k m, e) refl;
  value_array-object = λ k js m e.
      rw (member-of_map (λ d. some (to_list d)) (some []) k m, e) (ap some (to_list-of_list js));
  at_int-object = λ k n m e. rw (member-of_map as_int none k m, e) refl;
  at_text-object = λ k s m e. rw (member-of_map as_text none k m, e) refl;
  at_text-missing = λ k m e. rw (member-of_map as_text none k m, e) refl;
  at-object = λ k j m e. rw (member-of_map some none k m, e) refl;
  value_int-null = λ k d. refl;
}
