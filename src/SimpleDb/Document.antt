-- ===== src/SimpleDb/Document.antt =====
-- `SimpleDocument` of include/flowcoro/simple_db.h. The order of `fields` stands for the order in
-- which the `unordered_map` is walked: a new key comes last here, where the map promises no place.
use flowcoro.Base.{
  ℕ, Bool, true, false, Option, none, some, List, [], ◌∷◌, ◌++◌, ◌==◌, if◌then◌else◌,
}
use flowcoro.Text.{Text, split_at, split_on, text_eq}

pub record Document : Type 0 where
  pub fields : List (Text × Text)
  pub id : Text

abbrev pub new_document : Text → Document
new_document doc_id = record { fields = []; id = doc_id }

-- `fields[key] = value`
unfoldable pub assign : Text → Text → List (Text × Text) → List (Text × Text)
assign key value [] = (key, value) ∷ []
assign key value ((k, v) ∷ fs) =
    if text_eq k key then (k, value) ∷ fs else (k, v) ∷ assign key value fs

unfoldable pub find : Text → List (Text × Text) → Option Text
find key [] = none
find key ((k, v) ∷ fs) = if text_eq k key then some v else find key fs

unfoldable pub set : Document → Text → Text → Document
unfolding assign
set d key value = record d { fields = assign key value d.fields }

unfoldable pub get : Document → Text → Text → Text
unfolding find
get d key default_value = elim (find key d.fields) [ none ↦ default_value | some v ↦ v ]

unfoldable pub has : Document → Text → Bool
unfolding find
has d key = elim (find key d.fields) [ none ↦ false | some _ ↦ true ]

abbrev pub quote : ℕ
quote = b'"'

abbrev pub quoted : Text → Text
quoted s = quote ∷ s ++ (quote ∷ [])

-- `"key":"value"`
abbrev pub pair_text : Text → Text → Text
pair_text key value = quoted key ++ (b':' ∷ quoted value)

unfoldable pub fields_text : List (Text × Text) → Text
fields_text [] = []
fields_text ((k, v) ∷ fs) = b',' ∷ pair_text k v ++ fields_text fs

abbrev pub id_key : Text
id_key = b'i' ∷ b'd' ∷ []

unfoldable pub serialize : Document → Text
unfolding fields_text
serialize d = b'{' ∷ (pair_text id_key d.id ++ fields_text d.fields) ++ (b'}' ∷ [])

-- The text without its last byte, if that is a quote.
unfoldable pub strip_end : Text → Option Text
strip_end [] = none
strip_end (x ∷ []) = if x == quote then some [] else none
strip_end (x ∷ y ∷ s) = elim (strip_end (y ∷ s)) [ none ↦ none | some t ↦ some (x ∷ t) ]

-- The `remove_quotes` of `deserialize`.
unfoldable pub remove_quotes : Text → Text
unfolding strip_end
remove_quotes [] = []
remove_quotes (x ∷ s) =
    if x == quote then elim (strip_end s) [ none ↦ x ∷ s | some t ↦ t ] else x ∷ s

-- One round of the loop of `deserialize`, by the texts before and behind the colon.
unfoldable pub read_pair : Document → Option (Text × Text) → Document
unfolding remove_quotes assign
read_pair d none = d
read_pair d (some (k, v)) =
    let key = remove_quotes k in
    let value = remove_quotes v in
    if text_eq key id_key
    then record d { id = value }
    else record d { fields = assign key value d.fields }

unfoldable pub read_items : Document → List Text → Document
unfolding read_pair
read_items d [] = d
read_items d (item ∷ items) = read_items (read_pair d (split_at b':' item)) items

-- What stands between the first `{` and the first `}` behind it.
unfoldable pub content_of : Text → Option Text
content_of text = elim (split_at b'{' text) [
  | none ↦ none
  | some (_, rest) ↦ elim (split_at b'}' rest) [ none ↦ none | some (content, _) ↦ some content ]
]

unfoldable pub deserialize : Text → Document
unfolding read_items content_of
deserialize text = elim (content_of text) [
  | none ↦ new_document []
  | some content ↦ read_items (new_document []) (split_on b',' content)
]
