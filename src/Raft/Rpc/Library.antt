-- ===== src/Raft/Rpc/Library.antt =====
-- What the program calls of nlohmann::json. A throw is `none`. The values of `int` are those of the
-- C++ type, which the model does not bound.
use kv_store_project.Prelude.{Bool, List, [], Option, none, some, ◌≡◌}
use kv_store_project.Prelude.Int.{ℤ}
use kv_store_project.Prelude.Text.{Bytes}
use kv_store_project.Prelude.Map
use kv_store_project.Prelude.Map.{Map}

-- `object` is the initializer list of names and values. `value_int` and its like are `j.value(name,
-- default)`, `at_int` and `at_text` are `j.at(name).get_to`, which also stand for the conversion of
-- `j[name]`; `at` is `j[name]` itself, of a member that is there. `value_array` is an array member with the empty array as its default.
pub record Library : Type 1 where
  pub Json : Type 0
  pub parse : Bytes → Option Json
  pub dump : Json → Option Bytes
  pub int : ℤ → Json
  pub bool : Bool → Json
  pub text : Bytes → Json
  pub array : List Json → Json
  pub object : Map Json → Json
  pub null : Json
  pub value_int : Bytes → ℤ → Json → Option ℤ
  pub value_bool : Bytes → Bool → Json → Option Bool
  pub value_text : Bytes → Bytes → Json → Option Bytes
  pub value_array : Bytes → Json → Option (List Json)
  pub at_int : Bytes → Json → Option ℤ
  pub at_text : Bytes → Json → Option Bytes
  pub at : Bytes → Json → Option Json

-- A text that was dumped is parsed to the same document, the empty text to none, and a member of an object is found, or its
-- default is taken where there is none.
pub record IsLawful (L : Library) : Type 0 where
  pub parse-dump : (j : L.Json) (t : Bytes) → L.dump j ≡ some t → L.parse t ≡ some j
  pub parse-nil : L.parse [] ≡ none
  pub value_int-object :
      (k : Bytes) (d n : ℤ) (m : Map L.Json)
      → Map.lookup k m ≡ some (L.int n)
      → L.value_int k d (L.object m) ≡ some n
  pub value_int-default :
      (k : Bytes) (d : ℤ) (m : Map L.Json)
      → Map.lookup k m ≡ none
      → L.value_int k d (L.object m) ≡ some d
  pub value_bool-object :
      (k : Bytes) (d b : Bool) (m : Map L.Json)
      → Map.lookup k m ≡ some (L.bool b)
      → L.value_bool k d (L.object m) ≡ some b
  pub value_bool-default :
      (k : Bytes) (d : Bool) (m : Map L.Json)
      → Map.lookup k m ≡ none
      → L.value_bool k d (L.object m) ≡ some d
  pub value_text-object :
      (k d s : Bytes) (m : Map L.Json)
      → Map.lookup k m ≡ some (L.text s)
      → L.value_text k d (L.object m) ≡ some s
  pub value_array-object :
      (k : Bytes) (js : List L.Json) (m : Map L.Json)
      → Map.lookup k m ≡ some (L.array js)
      → L.value_array k (L.object m) ≡ some js
  pub at_int-object :
      (k : Bytes) (n : ℤ) (m : Map L.Json)
      → Map.lookup k m ≡ some (L.int n)
      → L.at_int k (L.object m) ≡ some n
  pub at_text-object :
      (k s : Bytes) (m : Map L.Json)
      → Map.lookup k m ≡ some (L.text s)
      → L.at_text k (L.object m) ≡ some s
  pub at_text-missing :
      (k : Bytes) (m : Map L.Json) → Map.lookup k m ≡ none → L.at_text k (L.object m) ≡ none
  pub at-object :
      (k : Bytes) (j : L.Json) (m : Map L.Json)
      → Map.lookup k m ≡ some j
      → L.at k (L.object m) ≡ some j
  pub value_int-null : (k : Bytes) (d : ℤ) → L.value_int k d L.null ≡ none
