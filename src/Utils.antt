-- ===== src/Utils.antt =====
-- pkg/utils/utils.go: ParseRequest and IpToByteArray. PopulateStatus is in Ipam.
pub mod Octets
pub mod Requests
pub mod Callers
use Prim.Native.Char.{Char, code}
use Prim.Native.String
use vlanman.Prelude.{
  ℕ, ◌^◌, String, List, [], ◌∷◌, Option, none, some, ◌⊎◌, inl, inr, Bool, not, ltb, eqb, ◌==◌,
  if◌then◌else◌,
}
use vlanman.Prelude.Decimal.{unsigned}
use vlanman.Errors.{GoError, external, sentinel, unrecoverable, unrecoverable_error}

-- The parts of an http.Request that are read: a nil body is `none`. `read` is what ReadFrom puts into
-- the buffer; its error is dropped.
pub record HttpRequest : Type 0 where
  pub content_type : String
  pub body : Option String

-- admissionv1.AdmissionReview; a nil Request is `none`.
pub record AdmissionReview {ℓ} (R : Type ℓ) : Type ℓ where
  pub request : Option R

module _ {R : Type 0} (unmarshal : String → GoError ⊎ AdmissionReview R) where
  abbrev pub reviewed : AdmissionReview R → Option R → GoError ⊎ AdmissionReview R
  reviewed a none = inl (external "admission review can't be used: Request field is nil")
  reviewed a (some _) = inr a

  abbrev pub with_request : GoError ⊎ AdmissionReview R → GoError ⊎ AdmissionReview R
  with_request (inl e) = inl (external "could not parse admission review request")
  with_request (inr a) = reviewed a a.request

  abbrev pub parse_body : Option String → GoError ⊎ AdmissionReview R
  parse_body none = inl (
      unrecoverable_error
        "While unmarshaling admission request in ParseRequest, request.Body is nil"
        (sentinel unrecoverable))
  parse_body (some body) =
      if body == ""
      then inl (external "admission request body is empty")
      else with_request (unmarshal body)

  -- ParseRequest
  pub parse_request : HttpRequest → GoError ⊎ AdmissionReview R
  parse_request r =
      if not (r.content_type == "application/json")
      then inl (external "Content-Type should be application/json")
      else parse_body r.body

abbrev pub put_char : Char → List String → List String
put_char c [] = String.◌∷◌ c "" ∷ []
put_char c (s ∷ rest) = String.◌∷◌ c s ∷ rest

-- strings.Split(s, ".")
unfoldable pub split : String → List String
split String.[] = "" ∷ []
split (String.◌∷◌ c s) =
    let rest = split s in if eqb (code c) b'.' then "" ∷ rest else put_char c rest

-- strconv.ParseUint(s, 10, bits), where the error is not told.
abbrev in_range : ℕ → Option ℕ → Option ℕ
in_range bits none = none
in_range bits (some n) = if ltb n (2 ^ bits) then some n else none

unfoldable pub parse_uint : ℕ → String → Option ℕ
parse_uint bits s = in_range bits (unsigned s)

-- The loop over the octets.
unfoldable pub bytes_of : List String → Option (List ℕ)
bytes_of [] = some []
bytes_of (o ∷ octets) = elim (parse_uint 8 o) [
  | none ↦ none
  | some i ↦ elim (bytes_of octets) [ none ↦ none | some bytes ↦ some (i ∷ bytes) ]
]

-- IpToByteArray; `none` is an error.
unfoldable pub ip_to_byte_array : String → Option (List ℕ)
unfolding bytes_of parse_uint split
ip_to_byte_array ip = bytes_of (split ip)
