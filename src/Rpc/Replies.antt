-- ===== src/Rpc/Replies.antt =====
-- The answer to a request arrives.
use flowcoro.Base.{◌≡◌, refl, ap, ◌∙◌, true, false, none, some, [], ◌++◌}
use flowcoro.Text.{Text, lacks}
use flowcoro.Text.Search.{lacks-append}
use flowcoro.Rpc.{
  RpcMessage, quote, to_json, from_json, Reply, gives, Handlers, find_handler, not_found, response,
  handle_request,
}
use flowcoro.Rpc.Fields.{IsPlain}
use flowcoro.Rpc.RoundTrip.{from_json-to_json}

handler_replies :
    (req : RpcMessage) (h : Text → Reply) (value : Text)
    → h req.params ≡ gives value
    → response req (some h) ≡ record {
      id = req.id;
      method = [];
      params = [];
      result = value;
      error = [];
      is_request = false;
    }
unfolding response
handler_replies req h value e = rw e refl

-- If the server has a handler for the method of a request, no text in the request has a quote,
-- and the handler gives a value without one for its parameters, then reading the answer to the
-- written request gives a response with its id and that value.
pub reply_arrives :
    (handlers : Handlers) (m : RpcMessage) (h : Text → Reply) (value : Text)
    → IsPlain m
    → find_handler m.method handlers ≡ some h
    → h m.params ≡ gives value
    → lacks quote value ≡ true
    → from_json (handle_request handlers (to_json m)) ≡ record {
      id = m.id;
      method = [];
      params = [];
      result = value;
      error = [];
      is_request = false;
    }
unfolding handle_request
reply_arrives handlers m h value v known gave plain =
    ap (λ req. from_json (to_json (response req (find_handler req.method handlers))))
      (from_json-to_json m v)
    ∙ ap (λ o. from_json (to_json (response m o))) known
    ∙ ap (λ r. from_json (to_json r)) (handler_replies m h value gave)
    ∙ from_json-to_json
        record {
          id = m.id;
          method = [];
          params = [];
          result = value;
          error = [];
          is_request = false;
        }
        record {
          plain_id = v.plain_id;
          plain_method = refl;
          plain_params = refl;
          plain_result = plain;
          plain_error = refl;
        }

-- If no text in a request has a quote and the server has no handler for its method, reading the
-- answer to the written request gives a response with its id and an error that names the method.
pub unknown_method_told :
    (handlers : Handlers) (m : RpcMessage)
    → IsPlain m
    → find_handler m.method handlers ≡ none
    → from_json (handle_request handlers (to_json m)) ≡ record {
      id = m.id;
      method = [];
      params = [];
      result = [];
      error = not_found ++ m.method;
      is_request = false;
    }
unfolding handle_request response
unknown_method_told handlers m v unknown =
    ap (λ req. from_json (to_json (response req (find_handler req.method handlers))))
      (from_json-to_json m v)
    ∙ ap (λ o. from_json (to_json (response m o))) unknown
    ∙ from_json-to_json
        record {
          id = m.id;
          method = [];
          params = [];
          result = [];
          error = not_found ++ m.method;
          is_request = false;
        }
        record {
          plain_id = v.plain_id;
          plain_method = refl;
          plain_params = refl;
          plain_result = refl;
          plain_error = lacks-append quote not_found m.method refl v.plain_method;
        }
