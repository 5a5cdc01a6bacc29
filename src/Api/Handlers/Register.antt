-- ===== src/Api/Handlers/Register.antt =====
-- http_handlers/register_account_handler.c: the page of the registration, and the registration.
-- The result has the files too. `stacks` is what `get_fmt_now` leaves to be read.
use cbank_system.Prelude.{Bool, true, false, Option, none, some, if◌then◌else◌}
use cbank_system.Prelude.Ret.{Ret, ok, null, fault, ◌>>=◌}
use cbank_system.Text.{codes, bytes_eq}
use cbank_system.Orm.Files.{Files}
use cbank_system.Orm.Filtering.{Doubles}
use cbank_system.Render.{Malloc}
use cbank_system.Core.Auth.{Crypt}
use cbank_system.Core.Users.{
  RegisterAccountSchema, MakeNewUserResponse, StackReads, user_dto_from_register_acc_schema,
  make_new_user,
}
use cbank_system.Server.Http.{
  HttpRequest, HttpResponse, http_bad_request, http_no_content, add_body, make_res_first_line,
  redirect,
}
use cbank_system.Api.Schemas.{
  parse_register_acc_json_schema, parse_register_acc_xwf_urlencoded_schema,
}
use cbank_system.Api.Handlers.{accounts_route_path, handle_get_page}
use cbank_system.Api.Handlers.Login.{is_json, plain_refusal}

-- The files, the response and whether the registration succeeded.
abbrev pub Registered : Type 0
Registered = Files × HttpResponse × Bool

unfoldable pub parse_register : HttpRequest → Bool → Ret RegisterAccountSchema
parse_register req true = parse_register_acc_json_schema req
parse_register req false = parse_register_acc_xwf_urlencoded_schema req

unfoldable pub answer_new_user : HttpResponse → Files × MakeNewUserResponse → Registered
answer_new_user res (files, result) =
    if result.success
    then (files, make_res_first_line res http_no_content, true)
    else (files, add_body (make_res_first_line res http_bad_request) result.message, false)

module _ (d : Doubles) (crypt : Crypt) (stacks : StackReads) (files : Files) where
  unfoldable pub answer_registration : HttpResponse → Ret RegisterAccountSchema → Ret Registered
  unfolding answer_new_user
  answer_registration res fault = fault
  answer_registration res null =
      ok (files, plain_refusal res http_bad_request (codes "Malformed JSON request body"), false)
  answer_registration res (ok schema) = do
    user_data ← user_dto_from_register_acc_schema schema
    result ← make_new_user d crypt stacks files user_data
    ok (answer_new_user res result)

  unfoldable pub handle_post_register_account : HttpRequest → HttpResponse → Ret Registered
  unfolding parse_register answer_registration
  handle_post_register_account req res = do
    json ← is_json req
    answer_registration res (parse_register req json)

  -- A registration that succeeded is redirected.
  unfoldable pub after_registration : Registered → Files × Option HttpResponse
  after_registration (files', res, success) =
      (files', some (if success then redirect res accounts_route_path else res))

  unfoldable pub handle_get_register_account : Malloc → HttpResponse → Ret HttpResponse
  handle_get_register_account malloc res =
      handle_get_page malloc files (codes "./src/server/templates/register.html") res

  -- Nothing is sent for other methods.
  unfoldable pub handle_register_acocunt :
      Malloc → HttpRequest → HttpResponse → Ret (Files × Option HttpResponse)
  unfolding handle_get_register_account handle_post_register_account after_registration
  handle_register_acocunt malloc req res =
      if bytes_eq req.method (codes "GET")
      then (handle_get_register_account malloc res >>= (λ sent. ok (files, some sent)))
      else if bytes_eq req.method (codes "POST")
      then (handle_post_register_account req res >>= (λ answer. ok (after_registration answer)))
      else ok (files, none)
