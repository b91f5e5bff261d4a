-- ===== src/Rpc.antt =====
-- `RpcMessage` and `RpcServer::handle_request` of include/flowcoro/rpc.h. Texts are lists of bytes.
pub mod Keys
pub mod Fields
pub mod RoundTrip
pub mod Replies
mod Tests
use flowcoro.Base.{
  ℕ, Bool, true, false, not, Option, none, some, List, [], ◌∷◌, ◌++◌, ◌==◌, if◌then◌else◌,
}
use flowcoro.Text.{Text, split_at, text_eq, lacks, strip_prefix, after, before, before_last}

pub record RpcMessage : Type 0 where
  pub id : Text
  pub method : Text
  pub params : Text
  pub result : Text
  pub error : Text
  pub is_request : Bool

abbrev pub quote : ℕ
quote = b'"'

abbrev pub id_name : Text
id_name = b'i' ∷ b'd' ∷ []

abbrev pub method_name : Text
method_name = b'm' ∷ b'e' ∷ b't' ∷ b'h' ∷ b'o' ∷ b'd' ∷ []

abbrev pub params_name : Text
params_name = b'p' ∷ b'a' ∷ b'r' ∷ b'a' ∷ b'm' ∷ b's' ∷ []

abbrev pub result_name : Text
result_name = b'r' ∷ b'e' ∷ b's' ∷ b'u' ∷ b'l' ∷ b't' ∷ []

abbrev pub error_name : Text
error_name = b'e' ∷ b'r' ∷ b'r' ∷ b'o' ∷ b'r' ∷ []

abbrev pub is_request_name : Text
is_request_name = b'i' ∷ b's' ∷ b'_' ∷ b'r' ∷ b'e' ∷ b'q' ∷ b'u' ∷ b'e' ∷ b's' ∷ b't' ∷ []

abbrev pub true_text : Text
true_text = b't' ∷ b'r' ∷ b'u' ∷ b'e' ∷ []

abbrev pub false_text : Text
false_text = b'f' ∷ b'a' ∷ b'l' ∷ b's' ∷ b'e' ∷ []

-- `"name":` and what follows it.
abbrev pub key : Text → Text → Text
key name rest = quote ∷ name ++ quote ∷ b':' ∷ rest

-- `"name":"value"` and what follows it.
abbrev pub string_field : Text → Text → Text → Text
string_field name value rest = key name (quote ∷ value ++ quote ∷ rest)

-- `"name":value` and what follows it.
abbrev pub value_field : Text → Text → Text → Text
value_field name value rest = key name (value ++ rest)

-- A field that is left out when it is empty.
abbrev pub if_any : Text → Text → Text → Text
if_any [] field rest = rest
if_any (x ∷ xs) field rest = b',' ∷ field

pub to_json : RpcMessage → Text
to_json m =
    let last =
      b','
      ∷ value_field is_request_name (if m.is_request then true_text else false_text) (b'}' ∷ []) in
    let from_error = if_any m.error (string_field error_name m.error last) last in
    let from_result = if_any m.result (value_field result_name m.result from_error) from_error in
    let from_params = if_any m.params (value_field params_name m.params from_result) from_result in
    b'{' ∷ string_field id_name m.id (b',' ∷ string_field method_name m.method from_params)

pub extract_str : Text → Text → Text
extract_str json name = elim (after (key name (quote ∷ [])) json) [
  | none ↦ []
  | some rest ↦ elim (split_at quote rest) [ none ↦ [] | some (value, _) ↦ value ]
]

-- A value that begins with a quote ends at the next one, if there is one.
pub unquoted : Text → Text
unquoted [] = []
unquoted (c ∷ cs) =
    if c == quote then elim (split_at quote cs) [ none ↦ cs | some (front, _) ↦ front ] else c ∷ cs

-- Without a `,"` the value ends at the last `}`. If that stands before the value, it does not end.
pub extract_val : Text → Text → Text
unfolding unquoted
extract_val json name = elim (after (key name []) json) [
  | none ↦ []
  | some rest ↦ elim (before (b',' ∷ quote ∷ []) rest) [
    | some value ↦ unquoted value
    | none ↦ elim (before_last b'}' rest) [
      | some value ↦ unquoted value
      | none ↦ if lacks b'}' json then [] else unquoted rest
    ]
  ]
]

abbrev pub is_some {ℓ} : {A : Type ℓ} → Option A → Bool
is_some none = false
is_some (some a) = true

pub from_json : Text → RpcMessage
unfolding extract_str extract_val
from_json json = record {
  id = extract_str json id_name;
  method = extract_str json method_name;
  params = extract_val json params_name;
  result = extract_val json result_name;
  error = extract_str json error_name;
  is_request = is_some (after (key is_request_name true_text) json);
}

-- What a handler gives: a result, or the text of an exception.
pub data Reply : Type 0 where
  gives : Text → Reply
  throws : Text → Reply

abbrev pub Handlers : Type 0
Handlers = List (Text × (Text → Reply))

pub find_handler : Text → Handlers → Option (Text → Reply)
find_handler name [] = none
find_handler name ((n, h) ∷ hs) =
    let later = find_handler name hs in if text_eq n name then some h else later

abbrev pub not_found : Text
not_found =
    b'M' ∷ b'e' ∷ b't' ∷ b'h' ∷ b'o' ∷ b'd' ∷ b' ' ∷ b'n' ∷ b'o' ∷ b't' ∷ b' ' ∷ b'f' ∷ b'o' ∷ b'u'
    ∷ b'n' ∷ b'd' ∷ b':' ∷ b' ' ∷ []

abbrev pub handler_error : Text
handler_error =
    b'H' ∷ b'a' ∷ b'n' ∷ b'd' ∷ b'l' ∷ b'e' ∷ b'r' ∷ b' ' ∷ b'e' ∷ b'r' ∷ b'r' ∷ b'o' ∷ b'r' ∷ b':'
    ∷ b' ' ∷ []

pub response : RpcMessage → Option (Text → Reply) → RpcMessage
response req none = record {
  id = req.id;
  method = [];
  params = [];
  result = [];
  error = not_found ++ req.method;
  is_request = false;
}
response req (some handler) = elim (handler req.params) [
  | gives value ↦ record {
    id = req.id;
    method = [];
    params = [];
    result = value;
    error = [];
    is_request = false;
  }
  | throws what ↦ record {
    id = req.id;
    method = [];
    params = [];
    result = [];
    error = handler_error ++ what;
    is_request = false;
  }
]

pub handle_request : Handlers → Text → Text
unfolding response find_handler to_json from_json
handle_request handlers json =
    let req = from_json json in to_json (response req (find_handler req.method handlers))
