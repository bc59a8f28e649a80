-- ===== src/Server/Display/Rules.antt =====
-- How the fields, the sections and the status of a document are shown.
use kv_store_project.Prelude.{◌≡◌, refl, List, [], ◌∷◌, ◌++◌, Option, some, if◌then◌else◌, true}
use kv_store_project.Prelude.Int.{ℤ}
use kv_store_project.Prelude.Text.{Bytes, codes, bytes_eq}
use kv_store_project.Prelude.Map
use kv_store_project.Prelude.Map.{Map}
use kv_store_project.Raft.Rpc.Library.{Library, IsLawful}
use kv_store_project.Raft.Rpc.Documents.{ok_json}
use kv_store_project.Server.Display.{
  number, words, Row, Display, shown, Field, number_of, words_of, display, show_field, show_fields,
  show_sections, is_ok,
}

module _ (L : Library) (lawful : IsLawful L) where
  pub show_number :
      (label name : Bytes) (fs : List Field) (n : ℤ) (m : Map L.Json) (rows : List Row)
      → Map.lookup name m ≡ some (L.int n)
      → show_fields L fs (L.object m) ≡ some rows
      → show_fields L (number_of label name ∷ fs) (L.object m) ≡ some ((label, number n) ∷ rows)
  unfolding show_fields show_field
  show_number label name fs n m rows here more =
      rw (lawful.at_int-object name n m here) (rw more refl)

  pub show_words :
      (label name : Bytes) (fs : List Field) (s : Bytes) (m : Map L.Json) (rows : List Row)
      → Map.lookup name m ≡ some (L.text s)
      → show_fields L fs (L.object m) ≡ some rows
      → show_fields L (words_of label name ∷ fs) (L.object m) ≡ some ((label, words s) ∷ rows)
  unfolding show_fields show_field
  show_words label name fs s m rows here more =
      rw (lawful.at_text-object name s m here) (rw more refl)

  pub show_nothing : (m : Map L.Json) → show_fields L [] (L.object m) ≡ some []
  unfolding show_fields
  show_nothing m = refl

  ok_json-status : (m : Map L.Json) → is_ok L (ok_json L m) ≡ true
  unfolding ok_json Map.lookup bytes_eq
  ok_json-status m =
      let e : L.at_text (codes "status") (ok_json L m) ≡ some (codes "OK") =
        lawful.at_text-object (codes "status") (codes "OK") _ refl in
      rw (is_ok, e) refl

  -- An answer that is OK is shown by its rows.
  pub shown_if_ok :
      (m : Map L.Json) (r : Option (List Row)) (otherwise : Display) (rows : List Row)
      → r ≡ some rows
      → (if is_ok L (ok_json L m) then display r else otherwise) ≡ shown rows
  shown_if_ok m r otherwise rows e = rw (ok_json-status m, e) refl

  pub show_section :
      (name : Bytes) (fields : List Field) (sections : List (Bytes × List Field))
      (m inner : Map L.Json) (rows more : List Row)
      → Map.lookup name m ≡ some (L.object inner)
      → show_fields L fields (L.object inner) ≡ some rows
      → show_sections L sections (L.object m) ≡ some more
      → show_sections L ((name, fields) ∷ sections) (L.object m) ≡ some (rows ++ more)
  unfolding show_sections
  show_section name fields sections m inner rows more here shows rest =
      rw (lawful.at-object name (L.object inner) m here) (rw shows (rw rest refl))
