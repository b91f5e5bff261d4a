-- ===== src/Rpc/RoundTrip.antt =====
-- Reading a message that was written gives it back.
use flowcoro.Base.{
  ◌≡◌, refl, sym, ap, ◌∙◌, Bool, true, false, none, some, [], ◌∷◌, ◌++◌, ◌==◌, drop,
}
use flowcoro.Text.{Text, text_eq, lacks, strip_prefix, after}
use flowcoro.Rpc.{
  RpcMessage, quote, id_name, method_name, params_name, result_name, error_name, is_request_name,
  true_text, key, string_field, value_field, to_json, extract_str, extract_val, is_some, from_json,
}
use flowcoro.Rpc.Keys.{is_name, skip_char, skip_string_field, found_key}
use flowcoro.Rpc.Fields.{
  IsPlain, opt, last_field, from_error, from_result, from_params, from_method, whole, to_json-whole,
  skip_opt_string, skip_opt_value, extract_str_found, extract_str_absent, extract_val_found,
  extract_val_absent, no_error, no_result, no_params, has_flag,
}

-- Each rest begins with a quote, or goes on to the next.
error_begins : (e : Text) (b : Bool) → (y : Text) × (from_error e b ≡ quote ∷ y)
error_begins [] b = (drop 1 (last_field b), refl)
error_begins (c ∷ cs) b = (drop 1 (from_error (c ∷ cs) b), refl)

result_begins : (r e : Text) (b : Bool) → (y : Text) × (from_result r e b ≡ quote ∷ y)
result_begins [] e b = error_begins e b
result_begins (c ∷ cs) e b = (drop 1 (from_result (c ∷ cs) e b), refl)

read_id : (m : RpcMessage) → IsPlain m → extract_str (whole m) id_name ≡ m.id
unfolding strip_prefix
read_id m v =
    let rest = b',' ∷ from_method m.method m.params m.result m.error m.is_request in
    extract_str_found (whole m) id_name m.id rest
      (skip_char (id_name ++ quote ∷ b':' ∷ quote ∷ []) (string_field id_name m.id rest) b'{' refl
        ∙ found_key id_name (quote ∷ []) (quote ∷ m.id ++ quote ∷ rest) (m.id ++ quote ∷ rest) refl)
      v.plain_id

-- A search for another key passes over the id, and one for a later key over the method.
past_id :
    (name p : Text) (m : RpcMessage)
    → is_name name ≡ true
    → text_eq name id_name ≡ false
    → (quote == b'{') ≡ false
    → IsPlain m
    → after (key name p) (whole m)
      ≡ after (key name p) (from_method m.method m.params m.result m.error m.is_request)
past_id name p m a e brace v =
    let rest = from_method m.method m.params m.result m.error m.is_request in
    skip_char (name ++ quote ∷ b':' ∷ p) (string_field id_name m.id (b',' ∷ rest)) b'{' refl
    ∙ skip_string_field name id_name p m.id rest a refl e v.plain_id

read_method : (m : RpcMessage) → IsPlain m → extract_str (whole m) method_name ≡ m.method
unfolding strip_prefix
read_method m v =
    let rest = b',' ∷ from_params m.params m.result m.error m.is_request in
    extract_str_found (whole m) method_name m.method rest
      (past_id method_name (quote ∷ []) m refl refl refl v
        ∙ found_key method_name (quote ∷ []) (quote ∷ m.method ++ quote ∷ rest)
            (m.method ++ quote ∷ rest) refl)
      v.plain_method

past_method :
    (name p : Text) (m : RpcMessage)
    → is_name name ≡ true
    → text_eq name id_name ≡ false
    → text_eq name method_name ≡ false
    → IsPlain m
    → after (key name p) (whole m)
      ≡ after (key name p) (from_params m.params m.result m.error m.is_request)
past_method name p m a e f v =
    past_id name p m a e refl v
    ∙ skip_string_field name method_name p m.method
        (from_params m.params m.result m.error m.is_request) a refl f v.plain_method

past_params :
    (name p : Text) (m : RpcMessage)
    → is_name name ≡ true
    → text_eq name id_name ≡ false
    → text_eq name method_name ≡ false
    → text_eq name params_name ≡ false
    → IsPlain m
    → after (key name p) (whole m) ≡ after (key name p) (from_result m.result m.error m.is_request)
past_params name p m a e f g v =
    past_method name p m a e f v
    ∙ skip_opt_value name params_name p m.params (from_result m.result m.error m.is_request) a refl
        g v.plain_params

-- An optional value: what is found is the value and the quote of what follows.
opt_value :
    (name value rest r : Text)
    → lacks quote value ≡ true
    → rest ≡ quote ∷ r
    → after (key name []) rest ≡ none
    → (json : Text)
    → after (key name []) json
      ≡ after (key name []) (opt value (value_field name value (b',' ∷ rest)) rest)
    → extract_val json name ≡ value
unfolding strip_prefix
opt_value name [] rest r plain begins gone json e = extract_val_absent json name (e ∙ gone)
opt_value name (c ∷ cs) rest r plain begins gone json e =
    extract_val_found json name (c ∷ cs) r
      (e
        ∙ found_key name [] ((c ∷ cs) ++ b',' ∷ rest) ((c ∷ cs) ++ b',' ∷ rest) refl
        ∙ ap (λ x. some ((c ∷ cs) ++ b',' ∷ x)) begins)
      plain

read_error : (m : RpcMessage) → IsPlain m → extract_str (whole m) error_name ≡ m.error
unfolding strip_prefix
read_error m v = opt_error m.error refl
  where
    there :
        after (key error_name (quote ∷ [])) (whole m)
        ≡ after (key error_name (quote ∷ [])) (from_error m.error m.is_request)
    there =
        past_params error_name (quote ∷ []) m refl refl refl refl v
        ∙ skip_opt_value error_name result_name (quote ∷ []) m.result
            (from_error m.error m.is_request) refl refl refl v.plain_result

    opt_error : (x : Text) → m.error ≡ x → extract_str (whole m) error_name ≡ m.error
    opt_error [] e =
        extract_str_absent (whole m) error_name (
          there
          ∙ ap (λ x. after (key error_name (quote ∷ [])) (from_error x m.is_request)) e
          ∙ no_error m.is_request)
        ∙ sym e
    opt_error (c ∷ cs) e =
        extract_str_found (whole m) error_name m.error (b',' ∷ last_field m.is_request)
          (there
            ∙ ap (λ x. after (key error_name (quote ∷ [])) (from_error x m.is_request)) e
            ∙ found_key error_name (quote ∷ [])
                (quote ∷ (c ∷ cs) ++ quote ∷ b',' ∷ last_field m.is_request)
                ((c ∷ cs) ++ quote ∷ b',' ∷ last_field m.is_request) refl
            ∙ ap (λ x. some (x ++ quote ∷ b',' ∷ last_field m.is_request)) (sym e))
          v.plain_error

read_result : (m : RpcMessage) → IsPlain m → extract_val (whole m) result_name ≡ m.result
read_result m v =
    let (y, begins) = error_begins m.error m.is_request in
    opt_value result_name m.result (from_error m.error m.is_request) y v.plain_result begins
      (skip_opt_string result_name error_name [] m.error (last_field m.is_request) refl refl refl
          v.plain_error
        ∙ no_result m.is_request)
      (whole m) (past_params result_name [] m refl refl refl refl v)

read_params : (m : RpcMessage) → IsPlain m → extract_val (whole m) params_name ≡ m.params
read_params m v =
    let (y, begins) = result_begins m.result m.error m.is_request in
    opt_value params_name m.params (from_result m.result m.error m.is_request) y v.plain_params
      begins
      (skip_opt_value params_name result_name [] m.result (from_error m.error m.is_request) refl
          refl refl v.plain_result
        ∙ skip_opt_string params_name error_name [] m.error (last_field m.is_request) refl refl refl
            v.plain_error
        ∙ no_params m.is_request)
      (whole m) (past_method params_name [] m refl refl refl v)

read_flag :
    (m : RpcMessage)
    → IsPlain m
    → is_some (after (key is_request_name true_text) (whole m)) ≡ m.is_request
read_flag m v =
    ap is_some (
      past_params is_request_name true_text m refl refl refl refl v
      ∙ skip_opt_value is_request_name result_name true_text m.result
          (from_error m.error m.is_request) refl refl refl v.plain_result
      ∙ skip_opt_string is_request_name error_name true_text m.error (last_field m.is_request) refl
          refl refl v.plain_error)
    ∙ has_flag m.is_request

-- `from_json` of what `to_json` writes of a message gives the message back, if no text in it has
-- a quote.
pub from_json-to_json : (m : RpcMessage) → IsPlain m → from_json (to_json m) ≡ m
unfolding from_json
from_json-to_json m v =
    rw
      (
        to_json-whole m,
        read_id m v,
        read_method m v,
        read_params m v,
        read_result m v,
        read_error m v,
        read_flag m v,
      )
      refl
