-- ===== src/Rpc/Tests.antt =====
-- Messages and a server with one method.
use flowcoro.Base.{◌≡◌, refl, true, false, [], ◌∷◌, ◌++◌}
use flowcoro.Text.{Text, split_at, strip_prefix, after, before, before_last}
use flowcoro.Rpc.{
  RpcMessage, Reply, gives, Handlers, find_handler, to_json, from_json, handle_request, not_found,
  extract_str, extract_val, unquoted,
}
use flowcoro.Rpc.Fields.{IsPlain}
use flowcoro.Rpc.RoundTrip.{from_json-to_json}
use flowcoro.Rpc.Replies.{reply_arrives, unknown_method_told}

abbrev request : RpcMessage
request = record {
  id = b'7' ∷ [];
  method = b'a' ∷ b'd' ∷ b'd' ∷ [];
  params = b'[' ∷ b'1' ∷ b',' ∷ b'2' ∷ b']' ∷ [];
  result = [];
  error = [];
  is_request = true;
}

request-IsPlain : IsPlain request
request-IsPlain = record {
  plain_id = refl;
  plain_method = refl;
  plain_params = refl;
  plain_result = refl;
  plain_error = refl;
}

abbrev add : Text → Reply
add params = gives (b'3' ∷ [])

abbrev adding : Handlers
adding = (request.method, add) ∷ []

from_json-to_json_example : from_json (to_json request) ≡ request
from_json-to_json_example = from_json-to_json request request-IsPlain

reply_arrives_example : from_json (handle_request adding (to_json request)) ≡ record {
  id = b'7' ∷ [];
  method = [];
  params = [];
  result = b'3' ∷ [];
  error = [];
  is_request = false;
}
unfolding find_handler
reply_arrives_example = reply_arrives adding request add (b'3' ∷ []) request-IsPlain refl refl refl

unknown_method_told_example : from_json (handle_request [] (to_json request)) ≡ record {
  id = b'7' ∷ [];
  method = [];
  params = [];
  result = [];
  error = not_found ++ request.method;
  is_request = false;
}
unfolding find_handler
unknown_method_told_example = unknown_method_told [] request request-IsPlain refl

-- Parameters `{"a":1,"b":2}` are cut at the first `,"`.
abbrev with_object : RpcMessage
with_object = record request {
  params =
      b'{' ∷ b'"' ∷ b'a' ∷ b'"' ∷ b':' ∷ b'1' ∷ b',' ∷ b'"' ∷ b'b' ∷ b'"' ∷ b':' ∷ b'2' ∷ b'}' ∷ [];
}

object_is_cut :
    (from_json (to_json with_object)).params ≡ b'{' ∷ b'"' ∷ b'a' ∷ b'"' ∷ b':' ∷ b'1' ∷ []
unfolding to_json from_json extract_str extract_val unquoted split_at strip_prefix after before
    before_last
object_is_cut = refl
