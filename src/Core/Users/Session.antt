-- ===== src/Core/Users/Session.antt =====
-- core/user.c and core/auth.c: a registration, and the login behind it.
use cbank_system.Prelude.{true}
use cbank_system.Text.{codes}
use cbank_system.Orm.Files.{Files}
use cbank_system.Data.Users.Mount.{StoredUser, mounted}
use cbank_system.Data.Identity.Tracker.{Identity}
use cbank_system.Core.Users.{MakeNewUserResponse}

-- The answer to a registration that succeeds.
abbrev pub created : StoredUser → MakeNewUserResponse
created s = record { user = mounted s; success = true; message = codes "User created" }
