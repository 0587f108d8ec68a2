-- ===== src/Messages/Answer.antt =====
-- messages/result.go and messages/message.go: the answers of the message handlers, and the requests
-- as they see them.
use datafoundry_proxy.Base.{ℕ, List, Option, none, some, Str, codes, if◌then◌else◌}
use datafoundry_proxy.Base.Int.{ℤ}
use datafoundry_proxy.Errors.{GoError, plain}
use datafoundry_proxy.Effect.{Result, M, pure, fail, panic}
use datafoundry_proxy.Messages.Errors.{
  Error, get_error, error_code_none, error_code_db_not_initlized,
}
use datafoundry_proxy.Messages.Params.Must.{Param, given, bad, Map}
use datafoundry_proxy.Messages.Notification.{Message}
use datafoundry_proxy.Messages.Notification.Upgrade.{Server, is_serving}

-- A request: the header "User", the parameter "id" of the path, the query, and the body as
-- ParseRequestJsonAsMap of datahub_commons gives it.
pub record MessageRequest : Type 0 where
  pub user : Str
  pub id : Str
  pub form : Str → Str
  pub body : Result Map

pub data Data : Type 0 where
  no_data : Data
  query_list : ℤ → List Message → Data
  stats : List (Str × ℤ) → Data

-- The struct Result with the status of the answer.
pub record Answer : Type 0 where
  pub status_code : ℕ
  pub code : ℕ
  pub msg : Str
  pub result : Data

-- JsonResult; a nil error is ErrorNone. The data that occur can be marshalled.
unfoldable pub json_result : ℕ → Option Error → Data → Answer
json_result status_code none result' = record {
  status_code = status_code;
  code = error_code_none;
  msg = codes "OK";
  result = result';
}
json_result status_code (some e) result' = record {
  status_code = status_code;
  code = e.code;
  msg = e.message;
  result = result';
}

module _ {W : Type 0} where
  -- `JsonResult(w, status, e, nil)`; where the lookup of the error panics, so does the handler.
  abbrev pub refuse : ℕ → Option (Option Error) → M W Answer
  refuse status none = panic
  refuse status (some e) = pure (json_result status e Data.no_data)

  -- `v, e := ...; if e != nil { JsonResult(w, status, e, nil); return }`, and what follows.
  abbrev pub with_param : {A : Type 0} → Param A → ℕ → (A → M W Answer) → M W Answer
  with_param (given a) status next = next a
  with_param (bad e) status next = pure (json_result status (some e) Data.no_data)

-- `db := getDB(); if db == nil { ... }`: there is a database while it is serving.
abbrev pub with_db : {W : Type 0} → M (Server W) Answer → M (Server W) Answer
with_db next s =
    if is_serving s then next s else refuse 500 (get_error error_code_db_not_initlized) s

abbrev pub db_not_inited : GoError
db_not_inited = plain (codes "db not inited")

-- The same in the functions that return an error.
abbrev pub need_db : {W A : Type 0} → M (Server W) A → M (Server W) A
need_db next s = if is_serving s then next s else fail db_not_inited s
