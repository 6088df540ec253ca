-- ===== src/Http/Loads.antt =====
-- What the caller of a request is told.
use pymaid.Prelude.{
  ◌≡◌, ◌≢◌, ◌↔◌, ◌⊎◌, inl, inr, refl, between, ◌==◌, true, false, Bool-cases, Result, ok, throw,
  syntax_error, arith, ==_iff, Text, codes,
}
use pymaid.Js.{Value, null, str, is_truthy}
use pymaid.Http.{Manager, Response}
use pymaid.Http.Answers.{answered, onload, failure}

module _ (json_parse : Text → Result Value) where
  -- `JSON.parse` yields a value or a SyntaxError.
  abbrev pub IsRead : Text → Type 0
  IsRead s = ((v : Value) × (json_parse s ≡ ok v)) ⊎ (json_parse s ≡ throw syntax_error)

  abbrev pub IsSuccess : Response → Type 0
  IsSuccess res =
      (v : Value) × (json_parse res.response_text ≡ ok v)
      × ((between 200 207 res.status ≡ true) ⊎ ((res.status ≡ 400) × (is_truthy v ≡ false)))

  no_error :
      (res : Response) (failed : Value)
      → json_parse res.response_text ≡ throw syntax_error
      → is_truthy failed ≡ true
      → (is_truthy failed ≡ false) ↔ IsSuccess res
  no_error res failed e t = (λ h. cc, λ (v, e', w). cc)

  -- A request that is neither redirected nor refused for its credentials calls its callback once. The
  -- callback is told no error just when the body parses, and either the status is one of 200 to 207,
  -- or it is 400 and the body is a value like `null` or `0` that is taken for no error.
  pub onload_answers :
      (res : Response) (m : Manager)
      → IsRead res.response_text
      → res.status ≢ 301
      → res.status ≢ 302
      → res.status ≢ 401
      → (err resp : Value) × ((onload json_parse res m).1 ≡ ok (answered err resp))
        × ((is_truthy err ≡ false) ↔ IsSuccess res)
  unfolding onload
  onload_answers res m read a b c =
      let text = res.response_text in
      let not_moved : (res.status == 301) ≡ false = ground arith in
      let not_found : (res.status == 302) ≡ false = ground arith in
      let known : (res.status == 401) ≡ false = ground arith in
      elim (Bool-cases (between 200 207 res.status)) [
        | inl good ↦ elim read [
          | inl (v, e) ↦ (null, v, rw (good, e) refl, (λ h. (v, e, inl good), λ h. refl))
          | inr e ↦ (
            failure (codes "invalid json response") res.status,
            str text,
            rw (good, e) refl,
            no_error res (failure (codes "invalid json response") res.status) e refl,
          )
        ]
        | inr bad ↦ elim (Bool-cases (res.status == 400)) [
          | inl asked ↦ elim read [
            | inl (v, e) ↦ (
              v,
              str text,
              rw (bad, not_moved, not_found, asked, e) refl,
              (
                λ h. (v, e, inr ((==_iff res.status 400).0 asked, h)),
                λ (v', e', w). elim w [ inl g ↦ cc | inr f ↦ let none_left = f.1 in cc ],
              ),
            )
            | inr e ↦ (
              failure text res.status,
              str text,
              rw (bad, not_moved, not_found, asked, e) refl,
              no_error res (failure text res.status) e refl,
            )
          ]
          | inr other ↦ (
            failure text res.status,
            str text,
            rw (bad, not_moved, not_found, other, known) refl,
            (
              λ h. cc,
              λ (v', e', w). elim w [
                | inl g ↦ cc
                | inr f ↦ let asked = (==_iff res.status 400).1 f.0 in cc
              ],
            ),
          )
        ]
      ]
