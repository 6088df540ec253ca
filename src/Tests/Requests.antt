-- ===== src/Tests/Requests.antt =====
-- Requests over HTTP.
use pymaid.Prelude.{
  ◌≡◌, ◌↔◌, refl, [], ◌∷◌, Text, codes, All, true, false, ok, throw, syntax_error, Result, inl,
  arith,
}
use pymaid.Js.{Value, undefined, num, str, null, arr, cons, nil, Fields, field, end, is_truthy}
use pymaid.Http.{
  Manager, Response, cookie_middleware, token_middleware, on_req_create, on_req_finish,
}
use pymaid.Http.Answers.{onload, answered}
use pymaid.Http.Urls.{real_url, root_of, is_absolute}
use pymaid.Http.Addresses.{real_url-root_of}
use pymaid.Http.Loads.{IsSuccess, onload_answers}
use pymaid.Http.Cookies.{Sends, on_req_create-on_req_finish}

abbrev manager : Manager
manager = record {
  root_url = codes "http://a";
  middlewares = token_middleware ∷ cookie_middleware ∷ [];
  timeout = num 30000;
  cookies = undefined;
  user_token = str (codes "t");
}

abbrev response : Response
response = record {
  status = 200;
  response_text = codes "7";
  set_cookie = str (codes "k=1");
  location = null;
}

-- A parser that knows one number.
abbrev json_parse : Text → Result Value
json_parse (c ∷ []) = ok (num 7)
json_parse _ = throw syntax_error

real_url-root_of_example : is_absolute (real_url (root_of (codes "a.b/")) (codes "/list")) ≡ true
real_url-root_of_example =
    real_url-root_of (codes "/list") (codes "a.b/") (λ e. cc) (λ e. cc) (λ e. cc)

abbrev query : Fields
query =
    field (codes "a") (arr (cons (str (codes "x")) (cons (str (codes "y")) nil)))
      (field (codes "b") (str []) end)

onload_answers_example :
    (err resp : Value) × ((onload json_parse response manager).1 ≡ ok (answered err resp))
    × ((is_truthy err ≡ false) ↔ IsSuccess json_parse response)
onload_answers_example =
    onload_answers json_parse response manager (inl (num 7, refl)) (omega arith) (omega arith)
      (omega arith)

on_req_create-on_req_finish_example :
    All (Sends (str (codes "k=1"))) (on_req_create (on_req_finish response manager))
on_req_create-on_req_finish_example = on_req_create-on_req_finish response refl manager
