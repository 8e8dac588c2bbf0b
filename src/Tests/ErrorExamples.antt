-- ===== src/Tests/ErrorExamples.antt =====
-- The text of an error on a stack where a caller is found late.
use vlanman.Prelude.{List, [], ◌∷◌, none, some, refl}
use vlanman.Errors.{new_client_request_error, external}
use vlanman.Errors.Texts.{Via, by_caller, by_error, by_errorf, Stack, Frame, error_text}
use vlanman.Errors.Told.{Has, IsFound, found_now, found_deeper, error_text-Has}

abbrev frame : Frame
frame = record { function = "main"; file = "main.go"; line = 7 }

-- Too few frames are on the stack but for a method that GetCallerInfo made call.
abbrev shallow : List Via → Stack
shallow (by_caller ∷ via) = record { written = 1; frames = some frame }
shallow _ = record { written = 0; frames = none }

shallow-IsFound : (via : List Via) → IsFound shallow 2 via
shallow-IsFound [] = found_deeper (found_now frame refl refl)
shallow-IsFound (by_caller ∷ via) = found_now frame refl refl
shallow-IsFound (by_error ∷ via) = found_deeper (found_now frame refl refl)
shallow-IsFound (by_errorf ∷ via) = found_deeper (found_now frame refl refl)

error_text-Has_example :
    Has (error_text shallow 2 (new_client_request_error "List" (external "no")))
error_text-Has_example =
    error_text-Has shallow 2 (new_client_request_error "List" (external "no")) shallow-IsFound
