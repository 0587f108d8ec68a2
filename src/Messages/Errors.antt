-- ===== src/Messages/Errors.antt =====
-- messages/error.go: the errors of the package messages, and the array in which they stand.
use datafoundry_proxy.Base.{
  ℕ, false, List, [], ◌∷◌, ◌++◌, Option, none, some, Str, codes, ltb, ◌==◌, ◌≡◌, ◌<◌, ◌≤◌, lt→ltb,
  ltb→lt, ltb-false, ◌↔◌, refl, arith, Bool-cases, inl, inr, ◌≢◌, if◌then◌else◌,
}

pub record Error : Type 0 where
  pub code : ℕ
  pub message : Str

abbrev pub error_code_none : ℕ
error_code_none = 0

abbrev pub error_code_unkown : ℕ
error_code_unkown = 5900

abbrev pub error_code_json_building : ℕ
error_code_json_building = 5901

abbrev pub error_code_url_not_supported : ℕ
error_code_url_not_supported = 5902

abbrev pub error_code_db_not_initlized : ℕ
error_code_db_not_initlized = 5903

abbrev pub error_code_auth_failed : ℕ
error_code_auth_failed = 5904

abbrev pub error_code_permission_denied : ℕ
error_code_permission_denied = 5905

abbrev pub error_code_invalid_parameters : ℕ
error_code_invalid_parameters = 5906

abbrev pub error_code_get_data_item : ℕ
error_code_get_data_item = 5907

abbrev pub error_code_create_message : ℕ
error_code_create_message = 5908

abbrev pub error_code_modify_message : ℕ
error_code_modify_message = 5909

abbrev pub error_code_get_message : ℕ
error_code_get_message = 5910

abbrev pub error_code_query_message : ℕ
error_code_query_message = 5911

abbrev pub error_code_get_message_stats : ℕ
error_code_get_message_stats = 5912

abbrev pub error_code_reset_message_stats : ℕ
error_code_reset_message_stats = 5913

abbrev pub error_code_parse_json_failed : ℕ
error_code_parse_json_failed = 5914

abbrev pub error_code_failed_to_connect_remote : ℕ
error_code_failed_to_connect_remote = 5915

abbrev pub error_code_not_ok_remote_response : ℕ
error_code_not_ok_remote_response = 5916

abbrev pub error_code_invalid_remote_response : ℕ
error_code_invalid_remote_response = 5917

abbrev pub num_errors : ℕ
num_errors = 6999

-- The calls of initError, in the order of the source.
unfoldable pub init_errors : List (ℕ × Str)
init_errors =
    (error_code_none, codes "OK")
    ∷ (error_code_unkown, codes "unknown error")
    ∷ (error_code_json_building, codes "json building error")
    ∷ (error_code_url_not_supported, codes "unsupported url")
    ∷ (error_code_db_not_initlized, codes "db is not inited")
    ∷ (error_code_auth_failed, codes "auth failed")
    ∷ (error_code_permission_denied, codes "permission denied")
    ∷ (error_code_invalid_parameters, codes "invalid parameters")
    ∷ (error_code_get_data_item, codes "failed to get data item")
    ∷ (error_code_create_message, codes "failed to create message")
    ∷ (error_code_modify_message, codes "failed to modify message")
    ∷ (error_code_get_message, codes "failed to get message")
    ∷ (error_code_query_message, codes "failed to  query messages")
    ∷ (error_code_get_message_stats, codes "failed to get message statistics")
    ∷ (error_code_reset_message_stats, codes "failed to reset message statistics")
    ∷ (error_code_parse_json_failed, codes "parse json failed")
    ∷ (error_code_failed_to_connect_remote, codes "failed to connect remote")
    ∷ (error_code_not_ok_remote_response, codes "remote response is not ok")
    ∷ (error_code_invalid_remote_response, codes "remote response error")
    ∷ []

-- `Errors[code]`, for a code below NumErrors: a nil pointer where no error was put.
abbrev pub entry : List (ℕ × Str) → ℕ → Option Error
entry [] code = none
entry ((k, text) ∷ rest) code =
    let next = entry rest code in
    if k == code then some (record { code = k; message = text }) else next

-- An access to the array: outside of it the program panics (`none`).
unfoldable pub errors_at : ℕ → Option (Option Error)
unfolding init_errors
errors_at code = if ltb code num_errors then some (entry init_errors code) else none

-- GetError
unfoldable pub get_error : ℕ → Option (Option Error)
get_error code = if ltb num_errors code then errors_at error_code_unkown else errors_at code

-- GetError2
unfoldable pub get_error2 : ℕ → Str → Option (Option Error)
unfolding get_error
get_error2 code text = elim (get_error code) [
  | none ↦ none
  | some none ↦ some (some (record { code = code; message = text }))
  | some (some e) ↦
      some
        (some (record { code = code; message = e.message ++ (codes " (" ++ (text ++ codes ")")) }))
]

-- newInvalidParameterError; the error that it looks up is one of those above.
unfoldable pub new_invalid_parameter_error : Str → Error
new_invalid_parameter_error param_name = record {
  code = error_code_invalid_parameters;
  message = codes "invalid parameters: " ++ param_name;
}

errors_at-inside : (code : ℕ) → code < num_errors → errors_at code ≢ none
unfolding errors_at
errors_at-inside code h e = cc (e, lt→ltb code num_errors h)

errors_at-outside : (code : ℕ) → num_errors ≤ code → errors_at code ≡ none
unfolding errors_at
errors_at-outside code h = rw (ltb-false code num_errors h) refl

only_between :
    (code : ℕ) → ltb num_errors code ≡ false → ltb code num_errors ≡ false → code ≡ num_errors
only_between code h k = ground arith

-- GetError panics for exactly one code, NumErrors itself, which its test lets through; every other
-- code, also one far outside the array, gives a value.
pub get_error-panics_iff : (code : ℕ) → (get_error code ≡ none) ↔ (code ≡ num_errors)
unfolding get_error
get_error-panics_iff code = elim (Bool-cases (ltb num_errors code)) [
  | inl above ↦ (
    λ h. absurd (errors_at-inside error_code_unkown (omega arith) (rw above at h)),
    λ e. absurd (omega (arith, ltb→lt num_errors code above, e)),
  )
  | inr not_above ↦ (
    λ h. elim (Bool-cases (ltb code num_errors)) [
      | inl inside ↦
          absurd (errors_at-inside code (ltb→lt code num_errors inside) (rw not_above at h))
      | inr outside ↦ only_between code not_above outside
    ],
    λ e. rw not_above (errors_at-outside code (omega (arith, e))),
  )
]
