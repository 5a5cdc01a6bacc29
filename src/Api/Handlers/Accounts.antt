-- ===== src/Api/Handlers/Accounts.antt =====
-- http_handlers/accounts_handler.c: the page of the accounts, and their list as a document.
-- How a double is printed is a parameter: `fixed` for `%.*f` of `double_to_ascii`, `print` for the
-- document's `%.2f`.
use cbank_system.Prelude.{ℕ, List, [], ◌∷◌, map, none, some, length, take, ltb, if◌then◌else◌}
use cbank_system.Prelude.Ret.{Ret, ok, fault, ◌>>=◌}
use cbank_system.Text.{Bytes, codes, bytes_eq}
use cbank_system.Orm.Files.{Files}
use cbank_system.Orm.Filtering.{Doubles}
use cbank_system.Render.{Malloc}
use cbank_system.Core.Json.{
  JsonBuilder, json_init, json_start_object, json_end_object, json_start_array, json_end_array,
  json_add_string, json_add_float, json_add_comma_if_needed, json_build,
}
use cbank_system.Core.Accounts.{ListAccountsResponse, list_accounts}
use cbank_system.Data.Models.{Account}
use cbank_system.Data.Accounts.{get_account_by_user_id}
use cbank_system.Data.Users.{get_user_by_id}
use cbank_system.Server.Http.{
  HttpRequest, HttpResponse, HttpHeaderField, ContentType, http_ok, http_no_content, add_res_header,
  get_header_field_name, get_content_type_string, make_res_first_line, add_body, add_content_type,
  add_content_len,
}
use cbank_system.Api.Handlers.{template_of, rendered_page}

pub record GetAccountDto (Double : Type 0) : Type 0 where
  pub id : Bytes
  pub balance : Double
  pub created_at : Bytes
  pub updated_at : Bytes

unfoldable pub account_to_get_account_dto :
    (d : Doubles) → Account d.Double → GetAccountDto d.Double
account_to_get_account_dto d acc = record {
  id = acc.id;
  balance = acc.balance;
  created_at = acc.created_at;
  updated_at = acc.updated_at;
}

-- A precision below zero is not given here; one above 20 is cut. The text is cut to 63 bytes.
unfoldable pub double_to_ascii : (d : Doubles) → (ℕ → d.Double → Bytes) → d.Double → ℕ → Bytes
double_to_ascii d fixed value precision =
    take 63 (fixed (if ltb 20 precision then 20 else precision) value)

-- The first `item_count` accounts.
unfoldable pub accounts_dto :
    (d : Doubles) → ListAccountsResponse d.Double → List (GetAccountDto d.Double)
unfolding account_to_get_account_dto
accounts_dto d list = map (account_to_get_account_dto d) (take list.item_count list.accounts)

-- The page greets the user of the token, and shows the balance of the user's account. The list of
-- all accounts is read and dropped.
unfoldable pub accounts_page :
    (d : Doubles) → (ℕ → d.Double → Bytes) → Malloc → Files → Bytes → Ret Bytes
unfolding double_to_ascii
accounts_page d fixed malloc files user_id = do
  accounts ← list_accounts d files
  user ← get_user_by_id d files user_id
  user_account ← get_account_by_user_id d files user_id
  template ← template_of files (codes "./src/server/templates/accounts.html")
  rendered_page malloc template (
      record { key = codes "username"; value = user.user.name }
      ∷ record {
        key = codes "total_balance";
        value = double_to_ascii d fixed user_account.account.balance 4;
      }
      ∷ [])

-- Here the first line is made before the headers are added, which only their order would show.
unfoldable pub page_response : HttpResponse → Bytes → HttpResponse
page_response res page =
    let with_body = make_res_first_line (add_body res page) http_ok in
    add_content_len (add_content_type with_body ContentType.html) (length with_body.body)

-- Without the subject of a token a null pointer is copied.
unfoldable pub handle_accounts :
    (d : Doubles)
    → (ℕ → d.Double → Bytes)
    → Malloc
    → Files
    → HttpRequest
    → HttpResponse
    → Ret HttpResponse
unfolding accounts_page page_response
handle_accounts d fixed malloc files req res = elim req.authenticated_jwt.sub [
  | none ↦ fault
  | some user_id ↦ (do
    page ← accounts_page d fixed malloc files user_id
    ok (page_response res page))
]

unfoldable pub account_dto_to_json_obj :
    (d : Doubles) → (d.Double → Bytes) → JsonBuilder → GetAccountDto d.Double → Ret JsonBuilder
account_dto_to_json_obj d print jb acc_dto =
    json_add_comma_if_needed jb
    >>= json_start_object
    >>= json_add_string (codes "id") acc_dto.id
    >>= json_add_string (codes "created_at") acc_dto.created_at
    >>= json_add_float print (codes "balance") acc_dto.balance
    >>= json_end_object

-- The loop over the accounts.
unfoldable pub accounts_to_json :
    (d : Doubles)
    → (d.Double → Bytes)
    → List (GetAccountDto d.Double)
    → JsonBuilder
    → Ret JsonBuilder
unfolding account_dto_to_json_obj
accounts_to_json d print [] jb = ok jb
accounts_to_json d print (acc ∷ accs) jb = do
  jb' ← account_dto_to_json_obj d print jb acc
  accounts_to_json d print accs jb'

unfoldable pub accounts_document :
    (d : Doubles) → (d.Double → Bytes) → List (GetAccountDto d.Double) → Ret JsonBuilder
unfolding accounts_to_json
accounts_document d print accs =
    json_start_object json_init
    >>= json_start_array (codes "data")
    >>= accounts_to_json d print accs
    >>= json_end_array
    >>= json_end_object

-- The document is printed into the body.
unfoldable pub handle_get_api_accounts :
    (d : Doubles) → (d.Double → Bytes) → Files → HttpResponse → Ret HttpResponse
unfolding accounts_dto accounts_document
handle_get_api_accounts d print files res = do
  accounts ← list_accounts d files
  jb ← accounts_document d print (accounts_dto d accounts)
  let with_type =
      add_res_header res (get_header_field_name HttpHeaderField.content_type)
        (get_content_type_string ContentType.json)
  ok (add_body with_type (json_build jb))

unfoldable pub handle_api_accounts :
    (d : Doubles) → (d.Double → Bytes) → Files → HttpRequest → HttpResponse → Ret HttpResponse
unfolding handle_get_api_accounts
handle_api_accounts d print files req res =
    if bytes_eq req.method (codes "GET")
    then handle_get_api_accounts d print files (make_res_first_line res http_ok)
    else if bytes_eq req.method (codes "POST")
    then ok (make_res_first_line res http_no_content)
    else ok res
