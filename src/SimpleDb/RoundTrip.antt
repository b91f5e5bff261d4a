-- ===== src/SimpleDb/RoundTrip.antt =====
-- Writing a document and reading it back.
use flowcoro.Base.{
  ℕ, ◌≡◌, ◌≢◌, refl, ap, sym, ◌∙◌, Bool, true, false, not, ◌&&◌, some, List, [], ◌∷◌, ◌++◌, arith,
  if◌then◌else◌, append_assoc, append-nil,
}
use flowcoro.Text.{Text, split_at, split_on, text_eq, lacks}
use flowcoro.Text.Search.{lacks-append, split_at-append, split_on-append, split_on-last}
use flowcoro.SimpleDb.Document.{
  Document, new_document, assign, quote, quoted, pair_text, fields_text, id_key, serialize,
  strip_end, remove_quotes, read_pair, read_items, content_of, deserialize,
}

strip_end-append : (s : Text) → strip_end (s ++ (quote ∷ [])) ≡ some s
unfolding strip_end
strip_end-append [] = ground arith
strip_end-append (x ∷ []) = ground arith
strip_end-append (x ∷ y ∷ s) = ground (arith, strip_end-append (y ∷ s))

remove_quotes-quoted : (s : Text) → remove_quotes (quoted s) ≡ s
unfolding remove_quotes
remove_quotes-quoted s = ground (arith, strip_end-append s)

lacks-quoted : (c : ℕ) (s : Text) → c ≢ quote → lacks c s ≡ true → lacks c (quoted s) ≡ true
lacks-quoted c s ne h = ground (arith, lacks-append c s (quote ∷ []))

-- What a value may not hold: the bytes at which `deserialize` cuts.
abbrev pub is_plain : Text → Bool
is_plain s = lacks b',' s && lacks b'}' s

abbrev pub is_plain_key : Text → Bool
is_plain_key k = is_plain k && lacks b':' k && not (text_eq k id_key)

abbrev pub has_key : Text → List (Text × Text) → Bool
has_key k [] = false
has_key k ((j, w) ∷ fs) = if text_eq j k then true else has_key k fs

-- The keys differ from those of `done` and from each other, and all can be written.
abbrev pub are_plain : List (Text × Text) → List (Text × Text) → Bool
are_plain done [] = true
are_plain done ((k, v) ∷ fs) =
    is_plain_key k && is_plain v && not (has_key k done) && are_plain (done ++ ((k, v) ∷ [])) fs

abbrev pub is_storable : Document → Bool
is_storable d = is_plain d.id && are_plain [] d.fields

lacks-pair :
    (c : ℕ) (k v : Text)
    → c ≢ quote
    → c ≢ b':'
    → lacks c k ≡ true
    → lacks c v ≡ true
    → lacks c (pair_text k v) ≡ true
lacks-pair c k v nq nc hk hv =
    lacks-append c (quoted k) (b':' ∷ quoted v) (lacks-quoted c k nq hk)
      (ground (arith, lacks-quoted c v nq hv))

read_pair-quoted :
    (d : Document) (k v : Text)
    → text_eq k id_key ≡ false
    → read_pair d (some (quoted k, quoted v)) ≡ record d { fields = assign k v d.fields }
unfolding read_pair
read_pair-quoted d k v h = rw (remove_quotes-quoted k, remove_quotes-quoted v, h) refl

colon-found :
    (k v : Text) → lacks b':' k ≡ true → split_at b':' (pair_text k v) ≡ some (quoted k, quoted v)
colon-found k v h = split_at-append b':' (quoted k) (quoted v) (lacks-quoted b':' k (omega arith) h)

assign-new :
    (k v : Text) (fs : List (Text × Text))
    → has_key k fs ≡ false
    → assign k v fs ≡ fs ++ ((k, v) ∷ [])
unfolding assign
assign-new k v [] h = refl
assign-new k v ((j, w) ∷ fs) h = ground (arith, assign-new k v fs)

-- The items between the commas, but for the first.
abbrev pair_texts : List (Text × Text) → List Text
pair_texts [] = []
pair_texts ((k, v) ∷ fs) = pair_text k v ∷ pair_texts fs

read_items-pairs :
    (i : Text) (done fs : List (Text × Text))
    → are_plain done fs ≡ true
    → read_items (record { fields = done; id = i }) (pair_texts fs)
      ≡ record { fields = done ++ fs; id = i }
unfolding read_items
read_items-pairs i done [] h = ap (λ l. record { fields = l; id = i }) (sym (append-nil done))
read_items-pairs i done ((k, v) ∷ fs) h =
    ap (λ o. read_items (read_pair (record { fields = done; id = i }) o) (pair_texts fs))
      (colon-found k v (ground arith))
    ∙ ap (λ d. read_items d (pair_texts fs))
        (read_pair-quoted (record { fields = done; id = i }) k v (ground arith))
    ∙ ap (λ l. read_items (record { fields = l; id = i }) (pair_texts fs))
        (assign-new k v done (ground arith))
    ∙ read_items-pairs i (done ++ ((k, v) ∷ [])) fs (ground arith)
    ∙ ap (λ l. record { fields = l; id = i }) (append_assoc done ((k, v) ∷ []) fs)

pair-lacks_comma :
    (done : List (Text × Text)) (k v : Text) (fs : List (Text × Text))
    → are_plain done ((k, v) ∷ fs) ≡ true
    → lacks b',' (pair_text k v) ≡ true
pair-lacks_comma done k v fs h =
    lacks-pair b',' k v (omega arith) (omega arith) (ground arith) (ground arith)

pair-lacks_brace :
    (done : List (Text × Text)) (k v : Text) (fs : List (Text × Text))
    → are_plain done ((k, v) ∷ fs) ≡ true
    → lacks b'}' (pair_text k v) ≡ true
pair-lacks_brace done k v fs h =
    lacks-pair b'}' k v (omega arith) (omega arith) (ground arith) (ground arith)

split-pairs :
    (x : ℕ) (first : Text) (done fs : List (Text × Text))
    → lacks b',' (x ∷ first) ≡ true
    → are_plain done fs ≡ true
    → split_on b',' ((x ∷ first) ++ fields_text fs) ≡ (x ∷ first) ∷ pair_texts fs
unfolding fields_text
split-pairs x first done [] hf h =
    ap (split_on b',') (append-nil (x ∷ first)) ∙ split_on-last b',' x first hf
split-pairs x first done ((j, w) ∷ fs) hf h =
    split_on-append b',' (x ∷ first) (pair_text j w ++ fields_text fs) hf
    ∙ ap (λ l. (x ∷ first) ∷ l)
        (split-pairs quote (j ++ (quote ∷ []) ++ (b':' ∷ quoted w)) (done ++ ((j, w) ∷ [])) fs
          (pair-lacks_comma done j w fs h) (ground arith))

lacks-fields :
    (done fs : List (Text × Text)) → are_plain done fs ≡ true → lacks b'}' (fields_text fs) ≡ true
unfolding fields_text
lacks-fields done [] h = refl
lacks-fields done ((k, v) ∷ fs) h =
    lacks-append b'}' (b',' ∷ pair_text k v) (fields_text fs)
      (ground (arith, pair-lacks_brace done k v fs h))
      (lacks-fields (done ++ ((k, v) ∷ [])) fs (ground arith))

-- The text between the braces.
abbrev body : Document → Text
body d = pair_text id_key d.id ++ fields_text d.fields

body-lacks : (d : Document) → is_storable d ≡ true → lacks b'}' (body d) ≡ true
body-lacks d h =
    lacks-append b'}' (pair_text id_key d.id) (fields_text d.fields)
      (lacks-pair b'}' id_key d.id (omega arith) (omega arith) refl (ground arith))
      (lacks-fields [] d.fields (ground arith))

content_of-serialize :
    (d : Document) → is_storable d ≡ true → content_of (serialize d) ≡ some (body d)
unfolding content_of serialize
content_of-serialize d h = ground (
  arith,
  split_at-append b'{' [] (body d ++ (b'}' ∷ [])) refl,
  split_at-append b'}' (body d) [] (body-lacks d h),
)

read_id :
    (i : Text) → read_pair (new_document []) (split_at b':' (pair_text id_key i)) ≡ new_document i
unfolding read_pair
read_id i =
    ap (read_pair (new_document [])) (colon-found id_key i refl)
    ∙ ap new_document (remove_quotes-quoted i)

-- `deserialize` gives back the document that `serialize` wrote, if its identifier, keys and
-- values hold no comma and no closing brace, and its keys no colon, are not `id`, and differ.
pub deserialize-serialize : (d : Document) → is_storable d ≡ true → deserialize (serialize d) ≡ d
unfolding deserialize read_items
deserialize-serialize d h = ground (
  arith,
  content_of-serialize d h,
  ap (read_items (new_document [])) items,
  ap (λ e. read_items e (pair_texts d.fields)) (read_id d.id),
  read_items-pairs d.id [] d.fields,
)
  where
    items : split_on b',' (body d) ≡ pair_text id_key d.id ∷ pair_texts d.fields
    items =
        split-pairs quote (id_key ++ (quote ∷ []) ++ (b':' ∷ quoted d.id)) [] d.fields
          (lacks-pair b',' id_key d.id (omega arith) (omega arith) refl (ground arith))
          (ground arith)
