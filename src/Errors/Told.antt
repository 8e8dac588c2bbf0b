-- ===== src/Errors/Told.antt =====
-- The Error methods end: each error has a text, though GetCallerInfo makes an error of its own.
use vlanman.Prelude.{
  arith, ℕ, zero, suc, String, List, [], ◌∷◌, Option, none, some, ◌≡◌, refl, true, false, Bool,
  if◌then◌else◌,
}
use vlanman.Errors.{
  GoError, Errors, external, sentinel, wrapped, joined, client_request, request,
  unrecoverable_error, internal_error, parsing_error, try_again_error, unimplemented_error,
  type_mismatch_error, missing_annotation_error, no_ip_in_pool_error, no_manager_pods_error,
  manager_not_ready_error, net_in_use_error, reconcile_error, reconcile_error_list,
  daemon_set_timeout_error, daemon_set_cleanup_error, daemon_pod_timeout_error, nil, cons,
}
use vlanman.Errors.Texts.{
  Via, by_caller, by_error, by_errorf, Stack, Frame, get_caller_info, caller_string, no_caller,
  of_frames, ◌>>=◌, text_with, texts_with, caller_text, error_text,
}

-- There is a value.
abbrev pub Has : {A : Type 0} → Option A → Type 0
Has {A} r = (a : A) × (r ≡ some a)

-- A frame is found for a method that was reached so, within `n` look-ups in a row: where one finds
-- none, the next is made for the text of the error that says so.
module _ (stack : List Via → Stack) where
  pub data IsFound : ℕ → List Via → Type 0 where
    found_now :
        {n : ℕ} {via : List Via} (frame : Frame)
        → ((stack via).written ≡ 1)
        → ((stack via).frames ≡ some frame)
        → IsFound (suc n) via
    found_deeper : {n : ℕ} {via : List Via} → IsFound n (by_caller ∷ via) → IsFound (suc n) via

module _ {A B : Type 0} where
  Has-bind : (r : Option A) (f : A → Option B) → Has r → ((a : A) → Has (f a)) → Has (r >>= f)
  Has-bind none f (a, eq) h = absurd (ground arith)
  Has-bind (some a) f _ h = h a

module _ (caller : List Via → Option String) (told : (via : List Via) → Has (caller via)) where
  mutual
    unfolding text_with texts_with

    text_with-Has : (via : List Via) (e : GoError) → Has (text_with caller via e)
    text_with-Has via (external s) = (_, refl)
    text_with-Has via (sentinel s) = (_, refl)
    text_with-Has via (wrapped s e) =
        Has-bind _ _ (text_with-Has (by_errorf ∷ via) e) (λ _. (_, refl))
    text_with-Has via (joined a b) =
        Has-bind _ _ (text_with-Has (by_errorf ∷ via) a)
          (λ _. Has-bind _ _ (text_with-Has (by_errorf ∷ via) b) (λ _. (_, refl)))
    text_with-Has via (client_request action e) =
        Has-bind _ _ (told via)
          (λ _. Has-bind _ _ (text_with-Has (by_error ∷ via) e) (λ _. (_, refl)))
    text_with-Has via (request action e) =
        Has-bind _ _ (told via)
          (λ _. Has-bind _ _ (text_with-Has (by_error ∷ via) e) (λ _. (_, refl)))
    text_with-Has via (unrecoverable_error context e) =
        Has-bind _ _ (told via)
          (λ _. Has-bind _ _ (text_with-Has (by_error ∷ via) e) (λ _. (_, refl)))
    text_with-Has via (internal_error context) = (_, refl)
    text_with-Has via (parsing_error source e) =
        Has-bind _ _ (text_with-Has (by_error ∷ via) e) (λ _. (_, refl))
    text_with-Has via (try_again_error e) =
        Has-bind _ _ (text_with-Has (by_error ∷ via) e) (λ _. (_, refl))
    text_with-Has via (unimplemented_error feature) = (_, refl)
    text_with-Has via (type_mismatch_error place got) = (_, refl)
    text_with-Has via (missing_annotation_error resource) = (_, refl)
    text_with-Has via (no_ip_in_pool_error resource pool) = (_, refl)
    text_with-Has via (no_manager_pods_error resource network) = (_, refl)
    text_with-Has via (manager_not_ready_error resource manager) = (_, refl)
    text_with-Has via (net_in_use_error pods name) = (_, refl)
    text_with-Has via (reconcile_error action e) =
        Has-bind _ _ (text_with-Has (by_error ∷ via) e) (λ _. (_, refl))
    text_with-Has via (reconcile_error_list es) =
        Has-bind _ _ (texts_with-Has (by_error ∷ via) es) (λ _. (_, refl))
    text_with-Has via (daemon_set_timeout_error name ready total) = (_, refl)
    text_with-Has via (daemon_set_cleanup_error name ready total e) =
        Has-bind _ _ (text_with-Has (by_error ∷ via) e) (λ _. (_, refl))
    text_with-Has via (daemon_pod_timeout_error name e) =
        Has-bind _ _ (text_with-Has (by_error ∷ via) e) (λ _. (_, refl))

    texts_with-Has : (via : List Via) (es : Errors) → Has (texts_with caller via es)
    texts_with-Has via nil = (_, refl)
    texts_with-Has via (cons e es) =
        Has-bind _ _ (text_with-Has via e)
          (λ _. Has-bind _ _ (texts_with-Has via es) (λ _. (_, refl)))

module _ (stack : List Via → Stack) where
  -- Where no caller is found, the text asks for the caller again, one method deeper.
  module _ (n : ℕ) (via : List Via) (deeper : Has (caller_text stack n (by_caller ∷ via))) where
    abbrev text : GoError → Option String
    text e = text_with (λ d. caller_text stack n d) (by_caller ∷ via) e

    no_caller-Has : (context : String) → Has (caller_string text (no_caller context))
    unfolding text_with
    no_caller-Has context = Has-bind _ _ (Has-bind _ _ deeper (λ _. (_, refl))) (λ _. (_, refl))

    of_frames-Has : (frames : Option Frame) → Has (caller_string text (of_frames frames))
    of_frames-Has none = no_caller-Has _
    of_frames-Has (some frame) = (_, refl)

    told_if :
        (one : Bool) (frames : Option Frame) (context : String)
        → Has (caller_string text (if one then of_frames frames else no_caller context))
    told_if true frames context = of_frames-Has frames
    told_if false frames context = no_caller-Has context

    told_deeper : (info : Stack) → Has (caller_string text (get_caller_info info))
    told_deeper info = told_if _ info.frames _

  caller_text-Has : (n : ℕ) (via : List Via) → IsFound stack n via → Has (caller_text stack n via)
  unfolding caller_text
  caller_text-Has zero via found = elim found [ ]
  caller_text-Has (suc n) via (found_now frame one found) = rw one (rw found (_, refl))
  caller_text-Has (suc n) via (found_deeper later) =
      told_deeper n via (caller_text-Has n (by_caller ∷ via) later) (stack via)

  -- Where, for every method that can be reached, the runtime finds a frame within `n` look-ups in a
  -- row, each error has a text, with fuel `n`: the error that GetCallerInfo makes where it finds none
  -- asks for the caller again, but only so often.
  pub error_text-Has :
      (n : ℕ) (e : GoError) → ((via : List Via) → IsFound stack n via) → Has (error_text stack n e)
  unfolding error_text
  error_text-Has n e found =
      text_with-Has (caller_text stack n) (λ via. caller_text-Has n via (found via)) [] e
