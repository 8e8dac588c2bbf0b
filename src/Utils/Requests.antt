-- ===== src/Utils/Requests.antt =====
-- Which requests ParseRequest accepts.
use vlanman.Prelude.{
  String, Option, none, some, ◌⊎◌, inl, inr, inl_ne_inr, inr_injective, true, false, ◌==◌, ◌≡◌, ◌↔◌,
  refl, ◌∙◌, sym, ap, Bool-cases,
}
use vlanman.Errors.{GoError}
use vlanman.Utils.{HttpRequest, AdmissionReview, parse_request, parse_body, with_request, reviewed}

module _ {R : Type 0} (unmarshal : String → GoError ⊎ AdmissionReview R) where
  -- The content type is JSON, and the body is there, is not empty, and is read as a review with a request.
  pub record IsAccepted (r : HttpRequest) (a : AdmissionReview R) : Type 0 where
    pub json : (r.content_type == "application/json") ≡ true
    pub body : String
    pub present : r.body ≡ some body
    pub filled : (body == "") ≡ false
    pub read : unmarshal body ≡ inr a
    pub request : R
    pub has_request : a.request ≡ some request

  module _ (r : HttpRequest) (a : AdmissionReview R)
      (json : (r.content_type == "application/json") ≡ true) (body : String)
      (present : r.body ≡ some body) (filled : (body == "") ≡ false) where
    of_request :
        (b : AdmissionReview R)
        → unmarshal body ≡ inr b
        → (o : Option R) → b.request ≡ o
        → reviewed unmarshal b o ≡ inr a
        → IsAccepted r a
    of_request b read none missing h = absurd (inl_ne_inr h)
    of_request b read (some q) there h = record {
      json = json;
      body = body;
      present = present;
      filled = filled;
      read = read ∙ h;
      request = q;
      has_request = ap (λ (x : AdmissionReview R). x.request) (sym (inr_injective h)) ∙ there;
    }

    of_body :
        (found : GoError ⊎ AdmissionReview R)
        → unmarshal body ≡ found
        → with_request unmarshal found ≡ inr a
        → IsAccepted r a
    of_body (inl e) read h = absurd (inl_ne_inr h)
    of_body (inr b) read h = of_request b read b.request refl h

  by_body :
      (r : HttpRequest) (a : AdmissionReview R)
      → (r.content_type == "application/json") ≡ true
      → (o : Option String) → r.body ≡ o
      → parse_body unmarshal o ≡ inr a
      → IsAccepted r a
  by_body r a json none present h = absurd (inl_ne_inr h)
  by_body r a json (some body) present h = elim (Bool-cases (body == "")) [
    | inl empty ↦ absurd (inl_ne_inr (rw empty at h))
    | inr filled ↦ of_body r a json body present filled (unmarshal body) refl (rw filled at h)
  ]

  reviewed-some :
      (a : AdmissionReview R) (o : Option R) (q : R) → o ≡ some q → reviewed unmarshal a o ≡ inr a
  reviewed-some a none q h = cc
  reviewed-some a (some _) q h = refl

  -- A request is accepted, with the review that its body is read as, exactly where its content type
  -- is JSON, its body is there and not empty, and the review has a request.
  pub parse_request_iff :
      (r : HttpRequest) (a : AdmissionReview R)
      → (parse_request unmarshal r ≡ inr a) ↔ IsAccepted r a
  unfolding parse_request
  parse_request_iff r a = (
    λ h. elim (Bool-cases (r.content_type == "application/json")) [
      | inl json ↦ by_body r a json r.body refl (rw json at h)
      | inr other ↦ absurd (inl_ne_inr (rw other at h))
    ],
    λ k.
        rw (k.json, k.present, k.filled, k.read)
          (reviewed-some a a.request k.request k.has_request),
  )
