-- ===== src/Messages/Params/Must.antt =====
-- messages/params.go: the parameters that a request must have, from its path, its query and its body.
use datafoundry_proxy.Base.{
  ℕ, Bool, true, false, ◌||◌, [], ◌∷◌, ◌++◌, Option, none, some, Str, codes, str_eq, ◌==◌,
  if◌then◌else◌,
}
use datafoundry_proxy.Base.Int.{ℤ}
use datafoundry_proxy.Json.{Json}
use datafoundry_proxy.Json.{bool, str}
use datafoundry_proxy.Messages.Errors.{Error, new_invalid_parameter_error, error_code_auth_failed}
use datafoundry_proxy.Messages.Params.{parse_int}

-- `(value, nil)`, and an error.
pub data Param (A : Type 0) : Type 0 where
  given : A → Param A
  bad : Error → Param A

abbrev pub blank : {A : Type 0} → Str → Param A
blank name = bad (new_invalid_parameter_error (name ++ codes " can't be blank"))

abbrev pub malformed : {A : Type 0} → Str → Str → Param A
malformed name value = bad (new_invalid_parameter_error (name ++ (codes "=" ++ value)))

abbrev pub of_other_type : {A : Type 0} → Str → Str → Param A
of_other_type name type_name =
    bad (new_invalid_parameter_error (codes "param " ++ (name ++ (codes " is not " ++ type_name))))

abbrev pub missing : {A : Type 0} → Str → Param A
missing name = bad (new_invalid_parameter_error (codes "param " ++ (name ++ codes " is not found")))

-- A map[string]interface{}: a key without a value is not in it.
abbrev pub Map : Type 0
Map = Str → Option Json

-- strconv.ParseBool
unfoldable pub parse_bool : Str → Option Bool
parse_bool s =
    if str_eq s (codes "1")
      || (str_eq s (codes "t")
          || (str_eq s (codes "T")
              || (str_eq s (codes "TRUE") || (str_eq s (codes "true") || str_eq s (codes "True")))))
    then some true
    else if str_eq s (codes "0")
        || (str_eq s (codes "f")
            || (str_eq s (codes "F")
                || (str_eq s (codes "FALSE")
                    || (str_eq s (codes "false") || str_eq s (codes "False")))))
    then some false
    else none

-- The body that MustBoolParam and MustBoolParamInQuery share.
unfoldable pub must_bool_param : Str → Str → Param Bool
unfolding parse_bool
must_bool_param name [] = blank name
must_bool_param name (c ∷ s) = elim (parse_bool (c ∷ s)) [
  | none ↦ malformed name (c ∷ s)
  | some b ↦ given b
]

unfoldable pub must_bool_param_in_map : Map → Str → Param Bool
must_bool_param_in_map m name = elim (m name) [
  | none ↦ missing name
  | some (bool b) ↦ given b
  | some _ ↦ of_other_type name (codes "bool")
]

unfoldable pub optional_bool_param_in_query : Str → Bool → Bool
unfolding parse_bool
optional_bool_param_in_query [] default_value = default_value
optional_bool_param_in_query (c ∷ s) default_value = elim (parse_bool (c ∷ s)) [
  | none ↦ default_value
  | some b ↦ b
]

-- _mustIntParam
unfoldable pub must_int_param : Str → Str → Param ℤ
must_int_param name [] = blank name
must_int_param name (c ∷ s) = elim (parse_int (c ∷ s)) [
  | none ↦ malformed name (c ∷ s)
  | some i ↦ given i
]

-- `int64_of` converts a float64 to int64; it is `none` for what is no number.
unfoldable pub must_int_param_in_map : (Json → Option ℤ) → Map → Str → Param ℤ
must_int_param_in_map int64_of m name = elim (m name) [
  | none ↦ missing name
  | some v ↦ elim (int64_of v) [ none ↦ of_other_type name (codes "int") | some i ↦ given i ]
]

-- The constants StringParamType_General, ..._UrlWord, ..._UnicodeUrlWord and ..._Email.
abbrev pub string_param_type_general : ℕ
string_param_type_general = 0

abbrev pub string_param_type_url_word : ℕ
string_param_type_url_word = 1

abbrev pub string_param_type_unicode_url_word : ℕ
string_param_type_unicode_url_word = 2

abbrev pub string_param_type_email : ℕ
string_param_type_email = 3

-- ValidateUrlWord, ValidateUnicodeUrlWord, ValidateEmail and ValidateGeneralWord of the package common
-- of datahub_commons: the text that is accepted, or `none`.
pub record Words : Type 0 where
  pub url_word : Str → Option Str
  pub unicode_url_word : Str → Option Str
  pub email : Str → Option Str
  pub general_word : Str → Option Str

abbrev pub checked_word : Str → Str → Option Str → Param Str
checked_word name s none = malformed (codes "param: " ++ name) s
checked_word name s (some s') = given s'

module _ (V : Words) where
  -- _mustStringParam
  unfoldable pub must_string_param : Str → Str → ℕ → Param Str
  must_string_param name [] param_type = blank (codes "param: " ++ name)
  must_string_param name (c ∷ s) param_type = checked_word name (c ∷ s) (
      if param_type == string_param_type_url_word
      then V.url_word (c ∷ s)
      else if param_type == string_param_type_unicode_url_word
      then V.unicode_url_word (c ∷ s)
      else if param_type == string_param_type_email
      then V.email (c ∷ s)
      else V.general_word (c ∷ s))

  unfoldable pub must_string_param_in_map : Map → Str → ℕ → Param Str
  unfolding must_string_param
  must_string_param_in_map m name param_type = elim (m name) [
    | none ↦ missing name
    | some (str s) ↦ must_string_param name s param_type
    | some _ ↦ of_other_type name (codes "string")
  ]

  -- MustRepoName and MustRepoAndItemName, on the parameters of the path.
  unfoldable pub must_repo_name : (Str → Str) → Param Str
  unfolding must_string_param
  must_repo_name params =
      must_string_param (codes "repname") (params (codes "repname")) string_param_type_url_word

  unfoldable pub must_repo_and_item_name : (Str → Str) → Param (Str × Str)
  unfolding must_string_param
  must_repo_and_item_name params =
      elim (must_string_param (codes "repname") (params (codes "repname"))
        string_param_type_url_word) [
          | bad e ↦ bad e
          | given repo_name ↦
              elim (must_string_param (codes "itemname") (params (codes "itemname"))
                string_param_type_url_word) [
                  | bad e ↦ bad e
                  | given item_name ↦ given (repo_name, item_name)
                ]
        ]

-- MustCurrentUserName, on the header "User"; the error that it looks up is in the array.
unfoldable pub must_current_user_name : Str → Param Str
must_current_user_name [] =
    bad (record { code = error_code_auth_failed; message = codes "auth failed" })
must_current_user_name (c ∷ s) = given (c ∷ s)
