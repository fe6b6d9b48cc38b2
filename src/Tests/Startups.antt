-- ===== src/Tests/Startups.antt =====
-- Starts of the server and of the command line client.
use u_dara_chat.Base.{◌≡◌, refl, true, false, [], ◌∷◌, some, none, codes, text_eq, not}
use u_dara_chat.Client.Talk.{client_main}
use u_dara_chat.Server.Startup.{Machine, exits, serves, files_readable, serve_with, server_main}

abbrev machine : Machine
machine = record {
  configured_secret = some (codes "s");
  is_readable = λ path. true;
  is_constructed = true;
  is_listening = true;
}

served : server_main machine ≡ serves (codes "s")
unfolding server_main serve_with files_readable
served = refl

no_secret : server_main (record machine { configured_secret = none }) ≡ exits 1
unfolding server_main
no_secret = refl

-- The first file cannot be opened, the second one can.
no_key :
    server_main (record machine {
      is_readable = λ path.
          not (text_eq path (codes "/etc/letsencrypt/live/gameinfo.daraempire.com/privkey.pem"));
    })
    ≡ exits 1
unfolding server_main serve_with files_readable text_eq
no_key = refl

chatty : client_main (codes "client" ∷ codes "Silent" ∷ []) ≡ false
unfolding client_main text_eq
chatty = refl

silent : client_main (codes "client" ∷ codes "silent" ∷ codes "x" ∷ []) ≡ true
unfolding client_main text_eq
silent = refl
