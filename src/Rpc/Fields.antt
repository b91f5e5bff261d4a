-- ===== src/Rpc/Fields.antt =====
-- The fields of a written message, and what reading one of them comes to.
use flowcoro.Base.{
  ◌≡◌, refl, ap, ◌∙◌, Bool, true, false, none, some, [], ◌∷◌, ◌++◌, if◌then◌else◌, arith,
}
use flowcoro.Text.{Text, text_eq, lacks, strip_prefix, after}
use flowcoro.Text.Search.{split_at-append}
use flowcoro.Rpc.{
  RpcMessage, quote, id_name, method_name, params_name, result_name, error_name, is_request_name,
  true_text, false_text, key, string_field, value_field, if_any, to_json, extract_str, unquoted,
  extract_val, is_some,
}
use flowcoro.Rpc.Keys.{is_name, skip_string_field, skip_value_field, before_field}

-- No text has a quote in it.
pub record IsPlain (m : RpcMessage) : Type 0 where
  pub plain_id : lacks quote m.id ≡ true
  pub plain_method : lacks quote m.method ≡ true
  pub plain_params : lacks quote m.params ≡ true
  pub plain_result : lacks quote m.result ≡ true
  pub plain_error : lacks quote m.error ≡ true

-- What `to_json` writes behind the `,` before each optional field.
abbrev pub opt : Text → Text → Text → Text
opt [] field rest = rest
opt (x ∷ xs) field rest = field

abbrev pub last_field : Bool → Text
last_field b = value_field is_request_name (if b then true_text else false_text) (b'}' ∷ [])

abbrev pub from_error : Text → Bool → Text
from_error e b = opt e (string_field error_name e (b',' ∷ last_field b)) (last_field b)

abbrev pub from_result : Text → Text → Bool → Text
from_result r e b = opt r (value_field result_name r (b',' ∷ from_error e b)) (from_error e b)

abbrev pub from_params : Text → Text → Text → Bool → Text
from_params p r e b =
    opt p (value_field params_name p (b',' ∷ from_result r e b)) (from_result r e b)

abbrev pub from_method : Text → Text → Text → Text → Bool → Text
from_method m p r e b = string_field method_name m (b',' ∷ from_params p r e b)

abbrev pub whole : RpcMessage → Text
whole m =
    b'{'
    ∷ string_field id_name m.id (b',' ∷ from_method m.method m.params m.result m.error m.is_request)

if_any_lem : (v field rest : Text) → if_any v field (b',' ∷ rest) ≡ b',' ∷ opt v field rest
if_any_lem [] field rest = refl
if_any_lem (x ∷ xs) field rest = refl

pub to_json-whole : (m : RpcMessage) → to_json m ≡ whole m
unfolding to_json
to_json-whole m =
    let b = m.is_request in
    let e =
      if_any_lem m.error (string_field error_name m.error (b',' ∷ last_field b)) (last_field b) in
    let r =
      if_any_lem m.result (value_field result_name m.result (b',' ∷ from_error m.error b))
        (from_error m.error b) in
    let p =
      if_any_lem m.params (value_field params_name m.params (b',' ∷ from_result m.result m.error b))
        (from_result m.result m.error b) in
    ap
      (λ x.
        b'{'
        ∷ string_field id_name m.id (
            b','
            ∷ string_field method_name m.method (
                if_any m.params
                  (value_field params_name m.params
                    (if_any m.result (value_field result_name m.result x) x))
                  (if_any m.result (value_field result_name m.result x) x))))
      e
    ∙ ap
        (λ x.
          b'{'
          ∷ string_field id_name m.id (
              b','
              ∷ string_field method_name m.method
                  (if_any m.params (value_field params_name m.params x) x)))
        r
    ∙ ap (λ x. b'{' ∷ string_field id_name m.id (b',' ∷ string_field method_name m.method x)) p

pub skip_opt_string :
    (name other p value rest : Text)
    → is_name name ≡ true
    → is_name other ≡ true
    → text_eq name other ≡ false
    → lacks quote value ≡ true
    → after (key name p) (opt value (string_field other value (b',' ∷ rest)) rest)
      ≡ after (key name p) rest
skip_opt_string name other p [] rest a b e v = refl
skip_opt_string name other p (x ∷ xs) rest a b e v =
    skip_string_field name other p (x ∷ xs) rest a b e v

pub skip_opt_value :
    (name other p value rest : Text)
    → is_name name ≡ true
    → is_name other ≡ true
    → text_eq name other ≡ false
    → lacks quote value ≡ true
    → after (key name p) (opt value (value_field other value (b',' ∷ rest)) rest)
      ≡ after (key name p) rest
skip_opt_value name other p [] rest a b e v = refl
skip_opt_value name other p (x ∷ xs) rest a b e v =
    skip_value_field name other p (x ∷ xs) rest a b e v

pub extract_str_found :
    (json name v rest : Text)
    → after (key name (quote ∷ [])) json ≡ some (v ++ quote ∷ rest)
    → lacks quote v ≡ true
    → extract_str json name ≡ v
unfolding extract_str
extract_str_found json name v rest e plain =
    rw (e, extract_str, split_at-append quote v rest plain) refl

pub extract_str_absent :
    (json name : Text) → after (key name (quote ∷ [])) json ≡ none → extract_str json name ≡ []
unfolding extract_str
extract_str_absent json name e = rw (e, extract_str) refl

unquoted_plain : (v : Text) → lacks quote v ≡ true → unquoted v ≡ v
unfolding unquoted
unquoted_plain [] e = refl
unquoted_plain (c ∷ cs) e = ground (arith, e)

pub extract_val_found :
    (json name v rest : Text)
    → after (key name []) json ≡ some (v ++ b',' ∷ quote ∷ rest)
    → lacks quote v ≡ true
    → extract_val json name ≡ v
unfolding extract_val
extract_val_found json name v rest e plain =
    rw (e, extract_val, before_field v rest plain) (unquoted_plain v plain)

pub extract_val_absent :
    (json name : Text) → after (key name []) json ≡ none → extract_val json name ≡ []
unfolding extract_val
extract_val_absent json name e = rw (e, extract_val) refl

-- The last field has none of the other names.
pub no_error : (b : Bool) → after (key error_name (quote ∷ [])) (last_field b) ≡ none
unfolding after strip_prefix
no_error true = refl
no_error false = refl

pub no_result : (b : Bool) → after (key result_name []) (last_field b) ≡ none
unfolding after strip_prefix
no_result true = refl
no_result false = refl

pub no_params : (b : Bool) → after (key params_name []) (last_field b) ≡ none
unfolding after strip_prefix
no_params true = refl
no_params false = refl

pub has_flag : (b : Bool) → is_some (after (key is_request_name true_text) (last_field b)) ≡ b
unfolding after strip_prefix
has_flag true = refl
has_flag false = refl
