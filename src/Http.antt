-- ===== src/Http.antt =====
-- `HttpManager` and its middlewares, of plugin/js/pymaid.js. `XMLHttpRequest` is the platform's: a request
-- is the calls that are made on it, in order, and its events are steps of their own.
pub mod Urls
pub mod Addresses
pub mod Queries
pub mod Cookies
pub mod Answers
pub mod Loads
use pymaid.Prelude.{
  ℕ, ◌==◌, ◌||◌, between, [], ◌∷◌, ◌++◌, List, Text, codes, Bool, true, false, if◌then◌else◌, map,
  Result, ok, throw, unfinished, syntax_error, type_error,
}
use mathlib.Core.List.{reverse}
use pymaid.Js.{Value, undefined, null, num, str, obj, Fields, end, field, is_truthy}
use pymaid.Names.Defs.{upper}
use Urls.{get_params, real_url, root_of, text_of}

pub data Middleware : Type 0 where
  cookie_middleware token_middleware : Middleware

pub record Manager : Type 0 where
  pub root_url : Text
  pub middlewares : List Middleware
  pub timeout : Value
  pub cookies : Value
  pub user_token : Value

-- `new HttpManager(rootUrl, webimpl, requestClass, timeout)`, of which the web implementations that are
-- bound keep a reference.
unfoldable pub new_manager : Text → Value → Manager
unfolding root_of
new_manager root_url timeout = record {
  root_url = root_of root_url;
  middlewares = [];
  timeout = if is_truthy timeout then timeout else num 30000;
  cookies = undefined;
  user_token = undefined;
}

unfoldable pub set_root_url : Text → Manager → Manager
unfolding root_of
set_root_url url m = record m { root_url = root_of url }

unfoldable pub set_cookies : Value → Manager → Manager
set_cookies cookies m = if is_truthy cookies then record m { cookies = cookies } else m

-- What is called on a request.
pub data Call : Type 0 where
  open_with : Text → Text → Bool → Call
  set_timeout : Value → Call
  set_with_credentials : Call
  set_request_header : Text → Text → Call
  send : Text → Call

-- What a request was answered with: its headers are text, or null where they are absent.
pub record Response : Type 0 where
  pub status : ℕ
  pub response_text : Text
  pub set_cookie : Value
  pub location : Value

unfoldable pub on_create : Middleware → Manager → List Call
unfolding text_of
on_create cookie_middleware m =
    set_with_credentials ∷ set_request_header (codes "Cookie") (text_of m.cookies) ∷ []
on_create token_middleware m =
    set_request_header (codes "Authorization") (codes "Basic " ++ text_of m.user_token) ∷ []

unfoldable pub on_finish : Middleware → Response → Manager → Manager
on_finish cookie_middleware res m = record m {
  cookies = if is_truthy res.set_cookie then res.set_cookie else m.cookies;
}
on_finish token_middleware res m = m

unfoldable pub create_from : List Middleware → Manager → List Call
unfolding on_create
create_from [] m = []
create_from (middleware ∷ rest) m = on_create middleware m ++ create_from rest m

unfoldable pub on_req_create : Manager → List Call
unfolding create_from
on_req_create m = create_from m.middlewares m

unfoldable pub finish_from : List Middleware → Response → Manager → Manager
unfolding on_finish
finish_from [] res m = m
finish_from (middleware ∷ rest) res m = finish_from rest res (on_finish middleware res m)

unfoldable pub on_req_finish : Response → Manager → Manager
unfolding finish_from
on_req_finish res m = finish_from m.middlewares res m

-- `newRequest`: `async || true` is true, whatever `async` is.
unfoldable pub new_request : Text → Text → Value → Manager → List Call
unfolding on_req_create real_url upper
new_request type url timeout m =
    open_with (map upper type) (real_url m.root_url url) true
    ∷ set_timeout (if is_truthy timeout then timeout else m.timeout)
    ∷ on_req_create m

-- `url + '?' + params`, if there are any.
unfoldable pub with_params : Text → Fields → Text
unfolding get_params
with_params url data_fields = elim (get_params data_fields) [
  | [] ↦ url
  | c ∷ params ↦ url ++ b'?' ∷ c ∷ params
]

unfoldable pub get_url : Text → Fields → Value → Manager → List Call
unfolding with_params new_request
get_url url data_fields timeout m =
    new_request (codes "GET") (with_params url data_fields) timeout m ++ send [] ∷ []

unfoldable pub del : Text → Fields → Value → Manager → List Call
unfolding with_params new_request
del url data_fields timeout m =
    new_request (codes "DELETE") (with_params url data_fields) timeout m ++ send [] ∷ []

-- `JSON.stringify` is a parameter.
module _ (json_stringify : Value → Text) where
  abbrev pub with_body : Text → Text → Value → Value → Manager → List Call
  with_body type url data_value timeout m =
      new_request type url timeout m
      ++ (set_request_header (codes "Content-Type") (codes "application/json; charset=UTF-8")
          ∷ send (if is_truthy data_value then json_stringify data_value else [])
          ∷ [])

  unfoldable pub post : Text → Value → Value → Manager → List Call
  unfolding new_request
  post url data_value timeout m = with_body (codes "POST") url data_value timeout m

  unfoldable pub put_url : Text → Value → Value → Manager → List Call
  unfolding new_request
  put_url url data_value timeout m = with_body (codes "PUT") url data_value timeout m
