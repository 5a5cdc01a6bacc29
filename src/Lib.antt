-- ===== src/Lib.antt =====
-- The bank server: models of its parts and what is proved of them.
--
-- The program is a single-threaded HTTP server. `src/main.c` registers the routes of
-- `src/server/routes.h` and starts the loop of `src/server/server.c`, which reads a request, looks
-- its route up, runs the route's middlewares and calls its handler. Users and accounts are lines of
-- text files, written and searched by `src/orm`. A login is a signed token in a cookie, `src/jwt`.
--
-- - Prelude: numbers, lists, options, bits; Ret is what a C function gives, a value, a null pointer
--   (or error code) that its caller tests, or a fault, behaviour that C leaves undefined.
-- - Text: C strings as lists of bytes, and the functions of the C library on them (strtok, strstr,
--   strchr, atol, fgets, the integers of printf).
-- - Utils: ltrim, remove_char and get_fmt_now of `src/utils.c`.
-- - Secret: `src/secret/manager.c`, and read_line of `src/utils.c`.
-- - Render: `src/render/engine.c`. Render.Pieces and Render.Page set it against substitution.
-- - Data: `src/data`. Data.Fields is how a stored line is searched and scanned; Data.Users,
--   Data.Accounts, Data.Identity and Data.Setup are the stores. Data.Users.Find and
--   Data.Identity.Tracker have the stores as lists of users and of identities.
-- - Jwt.Base64: `src/jwt/base64.c`. Jwt.Payload and Jwt.Token: `src/jwt/jwt.c`; generate_jwt,
--   create_jwt_for_user, jwt_validate and parse_jwt_payload keep their names, and stages of
--   jwt_validate are functions of their own (split_token, is_genuine, open_payload, check_expiry).
-- - Orm: `src/orm`. Orm.Insert, Orm.Filtering, Orm.Select and Orm.Select.Scan are the code;
--   Orm.Table is a table as its rows and what a query means on rows, the contract that the
--   executors implement; Orm.Table.Meaning sets the loops of the code against it.
-- - Server.Http: the types of `src/server/http_parser.h`, `src/server/http_utils.c` and the
--   response builders of `src/server/router.c`. Server.Url and Server.Parser:
--   `src/server/http_parser.c`. Server.Router: the registry and get_route of `src/server/router.c`,
--   and the registration loop of `src/main.c`. Server.Routes: `src/server/routes.h`. Server.Handle
--   and Server.Start: one round of start of `src/server/server.c`, from the bytes that were read.
-- - Api.Middlewares: `src/api/middlewares`. A function pointer to a middleware or a handler is its
--   name, and call_middleware is the call through the pointer.
-- - Core.Json: `src/core/json_builder.c`. Core.Auth, Core.Accounts and Core.Users: `auth.c` with
--   hash_str of `src/utils.c`, `acc.c` and `user.c` of `src/core`.
-- - Api.Schemas: `src/api/schemas`. Api.Handlers: `src/api/http_handlers`; a handler gives the
--   response that it sends, and the files where it writes them.
--
-- State is passed on explicitly: a function that changes a struct returns the new one. Files are a
-- function from paths to contents. Loops are structural recursion; the loop over the headers runs on
-- fuel, one round for each byte of the text and one more, and each round consumes a line end. So do
-- the loop over the environment file, which has no more lines than bytes, and the loop of the template
-- engine, where Render.Loop says for which templates that fuel is enough.
-- Integers that `atoi` or `%d` read outside an int are faults; `long` has no bound.
-- Buffers keep their sizes (`take` where the code cuts, a fault where it would write outside).
-- The C library's doubles and how they are printed, OpenSSL's HMAC, crypt, the clock, what the stack
-- holds where the array of get_fmt_now was, the block that malloc gives for a token's message, the
-- answers of realloc in the registry and in the secret manager, the contents of uninitialised stack
-- and of the template engine's block, and the page for unknown paths are parameters. Elsewhere heap
-- blocks are taken to be granted, and files to open where they are written.
--
-- Not modelled: sockets, the logger, moving and closing of streams, the printing of queries and
-- secrets, and the release of memory. The stores have no locks, so the model has none.
pub mod Prelude
pub mod Text
pub mod Utils
pub mod Api
pub mod Core
pub mod Jwt
pub mod Orm
pub mod Server
pub mod Render
pub mod Secret
pub mod Data
