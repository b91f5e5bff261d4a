-- ===== src/SimpleDb/Store.antt =====
-- A collection beside the list of its documents.
use flowcoro.Base.{
  suc, ◌≡◌, refl, ap, sym, ◌∙◌, Bool, true, false, not, ◌&&◌, Option, none, some, List, [], ◌∷◌,
  ◌++◌, arith, if◌then◌else◌, append_assoc, append-nil, length, map, Bool-cases, inl, inr,
}
use mathlib.Core.Path.{subst}
use flowcoro.Text.{Text, split_on, text_eq, lacks}
use flowcoro.Text.Search.{split_on-append}
use flowcoro.SimpleDb.Document.{Document, new_document, find, get, serialize}
use flowcoro.SimpleDb.RoundTrip.{is_storable, deserialize-serialize}
use flowcoro.SimpleDb.Collection.{
  lines_of, text_of, line, first_with, documents, with_field, replaced, remaining, write_all,
  lines_with_text, Op, inserts, finds, finds_all, finds_by_field, updates, deletes, counts, Reply,
  was_done, document, all_documents, number, step, run,
}

-- The document can be written, and on one line.
abbrev pub is_good : Document → Bool
is_good d = is_storable d && lacks b'\n' (serialize d)

abbrev are_good : List Document → Bool
are_good [] = true
are_good (d ∷ ds) = is_good d && are_good ds

-- The first document of this id, or an empty one.
pub first_of : Text → List Document → Document
first_of id [] = new_document []
first_of id (d ∷ ds) = let later = first_of id ds in if text_eq d.id id then d else later

-- The entries that pass a test.
abbrev pub keep_if : (Document → Bool) → List Document → List Document
keep_if p [] = []
keep_if p (d ∷ ds) = if p d then d ∷ keep_if p ds else keep_if p ds

-- The value of a key, empty if there is none.
abbrev pub value_of : Text → List (Text × Text) → Text
value_of key [] = []
value_of key ((k, v) ∷ fs) = if text_eq k key then v else value_of key fs

-- What the collection promises: a list of documents, oldest first.
pub list_step : List Document → Bool × Op → Reply × List Document
unfolding first_of
list_step ds (opens, inserts d) = (was_done opens, if opens then ds ++ (d ∷ []) else ds)
list_step ds (opens, finds id) = (document (first_of id ds), ds)
list_step ds (opens, finds_all) = (all_documents ds, ds)
list_step ds (opens, finds_by_field key value) =
    (all_documents (keep_if (λ d. text_eq (value_of key d.fields) value) ds), ds)
list_step ds (opens, updates id d) =
    (was_done opens, if opens then map (λ old. if text_eq old.id id then d else old) ds else ds)
list_step ds (opens, deletes id) =
    (was_done opens, if opens then keep_if (λ old. not (text_eq old.id id)) ds else ds)
list_step ds (opens, counts) = (number (length ds), ds)

pub list_run : List Document → List (Bool × Op) → List Reply
unfolding list_step
list_run ds [] = []
list_run ds (op ∷ ops) = let (reply, ds') = list_step ds op in reply ∷ list_run ds' ops

-- Every document that is inserted or written over another is good.
abbrev pub brings_good : List (Bool × Op) → Bool
brings_good [] = true
brings_good ((opens, inserts d) ∷ ops) = is_good d && brings_good ops
brings_good ((opens, updates id d) ∷ ops) = is_good d && brings_good ops
brings_good ((opens, finds id) ∷ ops) = brings_good ops
brings_good ((opens, finds_all) ∷ ops) = brings_good ops
brings_good ((opens, finds_by_field key value) ∷ ops) = brings_good ops
brings_good ((opens, deletes id) ∷ ops) = brings_good ops
brings_good ((opens, counts) ∷ ops) = brings_good ops

lines-write_all :
    (ds : List Document) → are_good ds ≡ true → split_on b'\n' (write_all ds) ≡ map serialize ds
unfolding write_all split_on
lines-write_all [] h = refl
lines-write_all (d ∷ ds) h =
    ap (split_on b'\n') (append_assoc (serialize d) (b'\n' ∷ []) (write_all ds))
    ∙ split_on-append b'\n' (serialize d) (write_all ds) (ground arith)
    ∙ ap (λ l. serialize d ∷ l) (lines-write_all ds (ground arith))

documents-lines : (ds : List Document) → are_good ds ≡ true → documents (map serialize ds) ≡ ds
unfolding documents serialize
documents-lines [] h = refl
documents-lines (d ∷ ds) h = ground (arith, deserialize-serialize d, documents-lines ds)

first_with-lines :
    (id : Text) (ds : List Document)
    → are_good ds ≡ true
    → first_with id (map serialize ds) ≡ first_of id ds
unfolding first_with first_of
first_with-lines id [] h = refl
first_with-lines id (d ∷ ds) h = ground (arith, deserialize-serialize d, first_with-lines id ds)

lines_with_text-lines : (ds : List Document) → lines_with_text (map serialize ds) ≡ length ds
unfolding lines_with_text serialize
lines_with_text-lines [] = refl
lines_with_text-lines (d ∷ ds) = ap suc (lines_with_text-lines ds)

write_all-append :
    (ds : List Document) (d : Document) → write_all (ds ++ (d ∷ [])) ≡ write_all ds ++ line d
unfolding write_all
write_all-append [] d = append-nil (line d)
write_all-append (e ∷ ds) d =
    ap (λ t. line e ++ t) (write_all-append ds d)
    ∙ sym (append_assoc (line e) (write_all ds) (line d))

are_good-append :
    (ds : List Document) (d : Document)
    → are_good ds ≡ true
    → is_good d ≡ true
    → are_good (ds ++ (d ∷ [])) ≡ true
are_good-append [] d h g = ground arith
are_good-append (e ∷ ds) d h g = ground (arith, are_good-append ds d)

are_good-replaced :
    (id : Text) (d : Document) (ds : List Document)
    → is_good d ≡ true
    → are_good ds ≡ true
    → are_good (replaced id d ds) ≡ true
unfolding replaced
are_good-replaced id d [] g h = refl
are_good-replaced id d (e ∷ ds) g h = elim (Bool-cases (text_eq e.id id)) [
  | inl same ↦ rw same (ground (arith, are_good-replaced id d ds g))
  | inr other ↦ rw other (ground (arith, are_good-replaced id d ds g))
]

are_good-remaining :
    (id : Text) (ds : List Document) → are_good ds ≡ true → are_good (remaining id ds) ≡ true
unfolding remaining
are_good-remaining id [] h = refl
are_good-remaining id (e ∷ ds) h = elim (Bool-cases (text_eq e.id id)) [
  | inl same ↦ rw same (ground (arith, are_good-remaining id ds))
  | inr other ↦ rw other (ground (arith, are_good-remaining id ds))
]

get-value_of :
    (id key : Text) (fs : List (Text × Text))
    → get (record { id = id; fields = fs }) key [] ≡ value_of key fs
unfolding get find
get-value_of id key [] = refl
get-value_of id key ((k, v) ∷ fs) = ground (arith, get-value_of id key fs)

-- The three loops do what the list does.
with_field-keep_if :
    (key value : Text) (ds : List Document)
    → with_field key value ds ≡ keep_if (λ d. text_eq (value_of key d.fields) value) ds
unfolding with_field
with_field-keep_if key value [] = refl
with_field-keep_if key value (d ∷ ds) =
    rw (with_field-keep_if key value ds, get-value_of d.id key d.fields) refl

replaced-map :
    (id : Text) (new : Document) (ds : List Document)
    → replaced id new ds ≡ map (λ old. if text_eq old.id id then new else old) ds
unfolding replaced
replaced-map id new [] = refl
replaced-map id new (d ∷ ds) =
    ap (λ l. (if text_eq d.id id then new else d) ∷ l) (replaced-map id new ds)

remaining-keep_if :
    (id : Text) (ds : List Document) → remaining id ds ≡ keep_if (λ old. not (text_eq old.id id)) ds
unfolding remaining
remaining-keep_if id [] = refl
remaining-keep_if id (d ∷ ds) = ground (arith, remaining-keep_if id ds)

-- The file holds these documents, one to a line.
record Holds (f : Option Text) (ds : List Document) : Type 0 where
  written : text_of f ≡ write_all ds
  good : are_good ds ≡ true

lines_of-text : (f : Option Text) → lines_of f ≡ split_on b'\n' (text_of f)
unfolding split_on
lines_of-text none = refl
lines_of-text (some t) = refl

lines-Holds : (f : Option Text) (ds : List Document) → Holds f ds → lines_of f ≡ map serialize ds
lines-Holds f ds v = lines_of-text f ∙ ap (split_on b'\n') v.written ∙ lines-write_all ds v.good

documents-Holds : (f : Option Text) (ds : List Document) → Holds f ds → documents (lines_of f) ≡ ds
documents-Holds f ds v = ap documents (lines-Holds f ds v) ∙ documents-lines ds v.good

-- One operation tells the client what the list would, and leaves the list's documents.
record Follows (r : Reply × Option Text) (s : Reply × List Document) : Type 0 where
  same : r.0 ≡ s.0
  holds : Holds r.1 s.1

step-Follows :
    (f : Option Text) (ds : List Document) (op : Bool × Op)
    → brings_good (op ∷ []) ≡ true
    → Holds f ds
    → Follows (step f op) (list_step ds op)
unfolding step list_step
step-Follows f ds (false, inserts d) g v = record { same = refl; holds = v }
step-Follows f ds (true, inserts d) g v = record {
  same = refl;
  holds = record {
    written = ap (λ t. t ++ line d) v.written ∙ sym (write_all-append ds d);
    good = are_good-append ds d v.good (ground arith);
  };
}
step-Follows f ds (opens, finds id) g v = record {
  same =
      ap (λ ls. document (first_with id ls)) (lines-Holds f ds v)
      ∙ ap document (first_with-lines id ds v.good);
  holds = v;
}
step-Follows f ds (opens, finds_all) g v = record {
  same = ap all_documents (documents-Holds f ds v);
  holds = v;
}
step-Follows f ds (opens, finds_by_field key value) g v = record {
  same =
      ap (λ l. all_documents (with_field key value l)) (documents-Holds f ds v)
      ∙ ap all_documents (with_field-keep_if key value ds);
  holds = v;
}
step-Follows f ds (false, updates id d) g v = record { same = refl; holds = v }
step-Follows f ds (true, updates id d) g v = record {
  same = refl;
  holds = record {
    written =
        ap (λ l. write_all (replaced id d l)) (documents-Holds f ds v)
        ∙ ap write_all (replaced-map id d ds);
    good =
        subst (λ l. are_good l ≡ true) (replaced-map id d ds)
          (are_good-replaced id d ds (ground arith) v.good);
  };
}
step-Follows f ds (false, deletes id) g v = record { same = refl; holds = v }
step-Follows f ds (true, deletes id) g v = record {
  same = refl;
  holds = record {
    written =
        ap (λ l. write_all (remaining id l)) (documents-Holds f ds v)
        ∙ ap write_all (remaining-keep_if id ds);
    good =
        subst (λ l. are_good l ≡ true) (remaining-keep_if id ds) (are_good-remaining id ds v.good);
  };
}
step-Follows f ds (opens, counts) g v = record {
  same =
      ap (λ ls. number (lines_with_text ls)) (lines-Holds f ds v)
      ∙ ap number (lines_with_text-lines ds);
  holds = v;
}

first_good :
    (op : Bool × Op) (ops : List (Bool × Op))
    → brings_good (op ∷ ops) ≡ true
    → (brings_good (op ∷ []) ≡ true) × (brings_good ops ≡ true)
first_good (opens, inserts d) ops h = ground arith
first_good (opens, finds id) ops h = ground arith
first_good (opens, finds_all) ops h = ground arith
first_good (opens, finds_by_field key value) ops h = ground arith
first_good (opens, updates id d) ops h = ground arith
first_good (opens, deletes id) ops h = ground arith
first_good (opens, counts) ops h = ground arith

run-list_run :
    (ops : List (Bool × Op)) (f : Option Text) (ds : List Document)
    → brings_good ops ≡ true
    → Holds f ds
    → run f ops ≡ list_run ds ops
unfolding run list_run
run-list_run [] f ds g v = refl
run-list_run (op ∷ ops) f ds g v =
    let (here, later) = first_good op ops g in
    let w = step-Follows f ds op here v in
    ap (λ r. r ∷ run (step f op).1 ops) w.same
    ∙ ap (λ l. (list_step ds op).0 ∷ l)
        (run-list_run ops (step f op).1 (list_step ds op).1 later w.holds)

-- Any sequence of calls on a new collection, some of which may find that the file cannot be
-- opened for writing, gets the replies of a list of documents that is kept in memory, if the
-- identifiers, keys and values of the documents it is given hold no comma, no closing brace and
-- no line break, and their keys no colon, are not `id`, and differ within a document.
pub collection_run_refines :
    (ops : List (Bool × Op)) → brings_good ops ≡ true → run none ops ≡ list_run [] ops
unfolding write_all
collection_run_refines ops g = run-list_run ops none [] g (record { written = refl; good = refl })
