-- ===== src/Server/Startup.antt =====
-- What `main` of uDaraChatServer.cpp decides before it serves. The environment, the file system, the
-- TLS context and the port are arguments: what `getenv`, `fopen`, `constructorFailed` and the
-- `listen` callback say. What it prints is left out.
use u_dara_chat.Base.{
  ℕ, Bool, true, false, not, List, [], ◌∷◌, Option, none, some, Text, codes, is_empty,
  if◌then◌else◌,
}

pub record Machine : Type 0 where
  -- `DARA_CHAT_JWT_SECRET`.
  pub configured_secret : Option Text
  pub is_readable : Text → Bool
  pub is_constructed : Bool
  pub is_listening : Bool

-- The end of the process with an exit status, or the event loop with the secret.
pub data Startup : Type 0 where
  exits : ℕ → Startup
  serves : Text → Startup

abbrev tls_key : Text
tls_key = codes "/etc/letsencrypt/live/gameinfo.daraempire.com/privkey.pem"

abbrev tls_chain : Text
tls_chain = codes "/etc/letsencrypt/live/gameinfo.daraempire.com/fullchain.pem"

-- The loop over the two paths: every path is tried.
unfoldable pub files_readable : (Text → Bool) → List Text → Bool → Bool
files_readable is_readable [] so_far = so_far
files_readable is_readable (path ∷ paths) so_far =
    files_readable is_readable paths (if is_readable path then so_far else false)

-- With a secret at hand.
unfoldable pub serve_with : Machine → Text → Startup
serve_with m secret =
    if is_empty secret
    then exits 1
    else if not (files_readable m.is_readable (tls_key ∷ tls_chain ∷ []) true)
    then exits 1
    else if not m.is_constructed
    then exits 1
    else if not m.is_listening
    then exits 1
    else serves secret

abbrev start_with : Machine → Option Text → Startup
start_with m none = exits 1
start_with m (some secret) = serve_with m secret

unfoldable pub server_main : Machine → Startup
server_main m = start_with m m.configured_secret
