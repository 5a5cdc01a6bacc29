-- ===== src/Api/Handlers.antt =====
-- src/api/http_handlers: what the handlers answer. A handler's result is its response, and the
-- files where it writes them; `send_http_response` of Server.Http is what the client gets of it.
pub mod Login
pub mod Register
pub mod Accounts
pub mod Refusals
pub mod Acceptance
mod Tests
use cbank_system.Prelude.{ℕ, suc, ◌+◌, List, [], ◌∷◌, length, Option, none, some}
use cbank_system.Prelude.Ret.{Ret, ok, null, fault, ◌>>=◌}
use cbank_system.Text.{Bytes, codes}
use cbank_system.Orm.Files.{Files}
use cbank_system.Render.{TemplateVar, Malloc, load_template_to_string, render_template}
use cbank_system.Server.Http.{
  HttpRequest, HttpResponse, ContentType, http_ok, add_body, add_content_type, add_content_len,
  make_res_first_line,
}

abbrev pub accounts_route_path : Bytes
accounts_route_path = codes "/accounts"

-- A page for a caller that follows the pointer. A rendering that never ends has no answer, which
-- counts as a fault here.
unfoldable pub page_of : Option (Ret Bytes) → Ret Bytes
page_of none = fault
page_of (some (ok page)) = ok page
page_of (some null) = fault
page_of (some fault) = fault

-- `render_template(load_template_to_string(path), vars, …)` for `add_body`. The fuel is enough
-- unless the rendering never ends.
unfoldable pub rendered_page : Malloc → Bytes → List TemplateVar → Ret Bytes
unfolding page_of
rendered_page malloc template vars =
    page_of (render_template (suc (length template)) malloc template vars)

-- The last lines of a handler of a page.
unfoldable pub html_response : HttpResponse → Bytes → HttpResponse
html_response res page =
    let with_body = add_body res page in
    let with_type = add_content_type with_body ContentType.html in
    make_res_first_line (add_content_len with_type (length with_body.body)) http_ok

-- A missing template is a null pointer that is followed.
unfoldable pub template_of : Files → Bytes → Ret Bytes
template_of files path = elim (load_template_to_string files path) [
  | ok template ↦ ok template
  | null ↦ fault
  | fault ↦ fault
]

-- `handle_get_login` and `handle_get_register_account`, by the path of the template.
unfoldable pub handle_get_page : Malloc → Files → Bytes → HttpResponse → Ret HttpResponse
unfolding template_of rendered_page html_response
handle_get_page malloc files path res = do
  template ← template_of files path
  page ← rendered_page malloc template []
  ok (html_response res page)

-- The pages without variables are their templates.
unfoldable pub handle_static_page : Files → Bytes → HttpResponse → Ret HttpResponse
unfolding template_of html_response
handle_static_page files path res = do
  template ← template_of files path
  ok (html_response res template)

unfoldable pub handle_home : Files → HttpResponse → Ret HttpResponse
unfolding handle_static_page
handle_home files = handle_static_page files (codes "./src/server/templates/index.html")

unfoldable pub handle_transfer : Files → HttpResponse → Ret HttpResponse
unfolding handle_static_page
handle_transfer files = handle_static_page files (codes "./src/server/templates/transfer.html")

unfoldable pub handle_extract : Files → HttpResponse → Ret HttpResponse
unfolding handle_static_page
handle_extract files = handle_static_page files (codes "./src/server/templates/extract.html")

unfoldable pub handle_cards : Files → HttpResponse → Ret HttpResponse
unfolding handle_static_page
handle_cards files = handle_static_page files (codes "./src/server/templates/cards.html")

unfoldable pub handle_payments : Files → HttpResponse → Ret HttpResponse
unfolding handle_static_page
handle_payments files = handle_static_page files (codes "./src/server/templates/payments.html")
