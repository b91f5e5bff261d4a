-- ===== src/SimpleDb/Collection.antt =====
-- `FileCollection` of include/flowcoro/simple_db.h on the text of its file: `none` is a file that
-- cannot be opened to read. Whether it can be opened to write is an argument. The mutex of the
-- collection makes each operation one step.
use flowcoro.Base.{
  ℕ, suc, Bool, true, false, Option, none, some, List, [], ◌∷◌, ◌++◌, if◌then◌else◌,
}
use flowcoro.Text.{Text, split_on, text_eq}
use flowcoro.SimpleDb.Document.{Document, new_document, get, serialize, deserialize}

-- What a loop of `std::getline` reads of the file.
abbrev pub lines_of : Option Text → List Text
lines_of none = []
lines_of (some t) = split_on b'\n' t

abbrev pub text_of : Option Text → Text
text_of none = []
text_of (some t) = t

abbrev pub line : Document → Text
line d = serialize d ++ (b'\n' ∷ [])

unfoldable pub insert : Bool → Option Text → Document → Bool × Option Text
insert false f d = (false, f)
insert true f d = (true, some (text_of f ++ line d))

-- The loop of `find_by_id`, which does not pass over empty lines.
unfoldable pub first_with : Text → List Text → Document
first_with id [] = new_document []
first_with id (l ∷ ls) =
    let d = deserialize l in let later = first_with id ls in if text_eq d.id id then d else later

unfoldable pub find_by_id : Option Text → Text → Document
unfolding first_with
find_by_id f id = first_with id (lines_of f)

-- The loop of `find_all`.
unfoldable pub documents : List Text → List Document
documents [] = []
documents ([] ∷ ls) = documents ls
documents ((x ∷ l) ∷ ls) = deserialize (x ∷ l) ∷ documents ls

unfoldable pub find_all : Option Text → List Document
unfolding documents
find_all f = documents (lines_of f)

-- The loops of `find_by_field`, `update_by_id` and `delete_by_id`, on the documents of the lines
-- that are not empty.
unfoldable pub with_field : Text → Text → List Document → List Document
with_field key value [] = []
with_field key value (d ∷ ds) =
    let rest = with_field key value ds in if text_eq (get d key []) value then d ∷ rest else rest

unfoldable pub replaced : Text → Document → List Document → List Document
replaced id new [] = []
replaced id new (d ∷ ds) = (if text_eq d.id id then new else d) ∷ replaced id new ds

unfoldable pub remaining : Text → List Document → List Document
remaining id [] = []
remaining id (d ∷ ds) = let rest = remaining id ds in if text_eq d.id id then rest else d ∷ rest

unfoldable pub find_by_field : Option Text → Text → Text → List Document
unfolding documents with_field
find_by_field f key value = with_field key value (documents (lines_of f))

unfoldable pub write_all : List Document → Text
write_all [] = []
write_all (d ∷ ds) = line d ++ write_all ds

unfoldable pub update_by_id : Bool → Option Text → Text → Document → Bool × Option Text
unfolding documents replaced write_all
update_by_id false f id new = (false, f)
update_by_id true f id new = (true, some (write_all (replaced id new (documents (lines_of f)))))

unfoldable pub delete_by_id : Bool → Option Text → Text → Bool × Option Text
unfolding documents remaining write_all
delete_by_id false f id = (false, f)
delete_by_id true f id = (true, some (write_all (remaining id (documents (lines_of f)))))

unfoldable pub lines_with_text : List Text → ℕ
lines_with_text [] = 0
lines_with_text ([] ∷ ls) = lines_with_text ls
lines_with_text ((x ∷ l) ∷ ls) = suc (lines_with_text ls)

unfoldable pub count : Option Text → ℕ
unfolding lines_with_text
count f = lines_with_text (lines_of f)

-- What a client asks, with whether the file opens to write.
pub data Op : Type 0 where
  inserts : Document → Op
  finds : Text → Op
  finds_all : Op
  finds_by_field : Text → Text → Op
  updates : Text → Document → Op
  deletes : Text → Op
  counts : Op

pub data Reply : Type 0 where
  was_done : Bool → Reply
  document : Document → Reply
  all_documents : List Document → Reply
  number : ℕ → Reply

unfoldable pub step : Option Text → Bool × Op → Reply × Option Text
unfolding insert find_by_id find_all find_by_field update_by_id delete_by_id count
step f (opens, inserts d) = let (ok, f') = insert opens f d in (was_done ok, f')
step f (opens, finds id) = (document (find_by_id f id), f)
step f (opens, finds_all) = (all_documents (find_all f), f)
step f (opens, finds_by_field key value) = (all_documents (find_by_field f key value), f)
step f (opens, updates id d) = let (ok, f') = update_by_id opens f id d in (was_done ok, f')
step f (opens, deletes id) = let (ok, f') = delete_by_id opens f id in (was_done ok, f')
step f (opens, counts) = (number (count f), f)

unfoldable pub run : Option Text → List (Bool × Op) → List Reply
unfolding step
run f [] = []
run f (op ∷ ops) = let (reply, f') = step f op in reply ∷ run f' ops
