-- ===== src/SimpleDb/Tests.antt =====
-- The collection on concrete documents.
use flowcoro.Base.{◌≡◌, refl, Bool, true, false, none, List, [], ◌∷◌}
use flowcoro.SimpleDb.Document.{Document, serialize, fields_text, deserialize}
use flowcoro.SimpleDb.RoundTrip.{deserialize-serialize}
use flowcoro.SimpleDb.Collection.{Op, inserts, finds, finds_by_field, updates, deletes, counts, run}
use flowcoro.SimpleDb.Store.{list_run, collection_run_refines}
use flowcoro.Text.{Text}

abbrev name_key : Text
name_key = b'n' ∷ b'a' ∷ b'm' ∷ b'e' ∷ []

-- Two fields, one of them with an empty value and a key with a space inside.
abbrev ann : Document
ann = record {
  id = b'1' ∷ b'7' ∷ [];
  fields = (name_key, b'A' ∷ b'n' ∷ b'n' ∷ []) ∷ (b'o' ∷ b' ' ∷ b'k' ∷ [], []) ∷ [];
}

abbrev bob : Document
bob = record { id = b'2' ∷ []; fields = (name_key, b'B' ∷ b'o' ∷ b'b' ∷ []) ∷ [] }

-- One of the calls finds that its file cannot be opened.
abbrev calls : List (Bool × Op)
calls =
    (true, inserts ann)
    ∷ (false, inserts bob)
    ∷ (true, inserts bob)
    ∷ (true, updates (b'1' ∷ b'7' ∷ []) bob)
    ∷ (true, finds_by_field name_key (b'B' ∷ b'o' ∷ b'b' ∷ []))
    ∷ (true, deletes (b'2' ∷ []))
    ∷ (true, finds (b'2' ∷ []))
    ∷ (true, counts)
    ∷ []

deserialize-serialize_example : deserialize (serialize ann) ≡ ann
deserialize-serialize_example = deserialize-serialize ann refl

collection_run_refines_example : run none calls ≡ list_run [] calls
unfolding serialize fields_text
collection_run_refines_example = collection_run_refines calls refl
