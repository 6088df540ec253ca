-- ===== src/Http/Cookies.antt =====
-- What a response leaves for the requests after it.
use pymaid.Prelude.{◌≡◌, refl, ap, [], ◌∷◌, List, codes, All, Bool, true, false}
use pymaid.Js.{Value, is_truthy}
use pymaid.Http.Urls.{text_of}
use pymaid.Http.{
  Manager, Middleware, cookie_middleware, token_middleware, Response, Call, set_request_header,
  on_create, on_finish, create_from, finish_from, on_req_create, on_req_finish,
}

-- A call that sets the header `Cookie` sets it to the text of `cookies`.
pub Sends : Value → Call → Type 0
Sends cookies (set_request_header name value) = name ≡ codes "Cookie" → value ≡ text_of cookies
Sends cookies _ = Unit

abbrev has_cookie : List Middleware → Bool
has_cookie [] = false
has_cookie (cookie_middleware ∷ rest) = true
has_cookie (token_middleware ∷ rest) = has_cookie rest

create_from-Sends :
    (middlewares : List Middleware) (m : Manager) (v : Value)
    → (has_cookie middlewares ≡ true → m.cookies ≡ v)
    → All (Sends v) (create_from middlewares m)
unfolding create_from on_create Sends
create_from-Sends [] m v h = tt
create_from-Sends (cookie_middleware ∷ rest) m v h =
    (tt, ((λ _. ap text_of (h refl)), create_from-Sends rest m v (λ _. h refl)))
create_from-Sends (token_middleware ∷ rest) m v h = (λ e. cc, create_from-Sends rest m v h)

module _ (res : Response) (fresh : is_truthy res.set_cookie ≡ true) where
  finish_from_keeps :
      (middlewares : List Middleware) (m : Manager)
      → m.cookies ≡ res.set_cookie
      → (finish_from middlewares res m).cookies ≡ res.set_cookie
  unfolding finish_from on_finish
  finish_from_keeps [] m e = e
  finish_from_keeps (cookie_middleware ∷ rest) m e = finish_from_keeps rest _ (rw fresh refl)
  finish_from_keeps (token_middleware ∷ rest) m e = finish_from_keeps rest m e

  finish_from_sets :
      (middlewares : List Middleware) (m : Manager)
      → has_cookie middlewares ≡ true
      → (finish_from middlewares res m).cookies ≡ res.set_cookie
  unfolding finish_from on_finish
  finish_from_sets [] m e = cc
  finish_from_sets (cookie_middleware ∷ rest) m e = finish_from_keeps rest _ (rw fresh refl)
  finish_from_sets (token_middleware ∷ rest) m e = finish_from_sets rest m e

  finish_from_middlewares :
      (middlewares : List Middleware) (m : Manager)
      → (finish_from middlewares res m).middlewares ≡ m.middlewares
  unfolding finish_from on_finish
  finish_from_middlewares [] m = refl
  finish_from_middlewares (cookie_middleware ∷ rest) m = finish_from_middlewares rest _
  finish_from_middlewares (token_middleware ∷ rest) m = finish_from_middlewares rest m

  -- After a response that sets a cookie, a request that sends the header `Cookie` sends this cookie,
  -- with whatever middlewares the manager has, in whatever order.
  pub on_req_create-on_req_finish :
      (m : Manager) → All (Sends res.set_cookie) (on_req_create (on_req_finish res m))
  unfolding on_req_create on_req_finish
  on_req_create-on_req_finish m =
      let same = finish_from_middlewares m.middlewares m in
      rw same (create_from-Sends m.middlewares _ res.set_cookie (finish_from_sets m.middlewares m))
