-- ===== src/Admin/Access.antt =====
-- Who may see the snapshot.
use u_dara_chat.Base.{◌≡◌, ◌≢◌, ◌⊎◌, Bool, true, false, codes, is_empty_iff, arith, []}
use u_dara_chat.Chat.CmdType.{admin_info, admin_error}
use u_dara_chat.Chat.Message.{DaraChatMsg}
use u_dara_chat.Admin.Query.{
  JsonLibrary, AdminSnapshot, object, is_admin_query, admin_error_msg, admin_body,
  answer_admin_query,
}

module _ (json : JsonLibrary) where
  -- A request without the administrator's right, or that is not a plain query, gets an answer that
  -- does not depend on the server's state.
  pub answer_admin_query_private :
      (request : DaraChatMsg) (is_admin : Bool) (s t : AdminSnapshot json.Double)
      → (is_admin ≡ false)
        ⊎ (is_admin_query request.kind ≡ false)
        ⊎ (request.recipient ≢ [])
        ⊎ (request.message ≢ [])
      → (answer_admin_query json request is_admin (λ _. s)
          ≡ answer_admin_query json request is_admin (λ _. t))
        × ((answer_admin_query json request is_admin (λ _. s)).kind ≡ admin_error)
  unfolding answer_admin_query admin_error_msg
  answer_admin_query_private request is_admin s t h =
      ground (arith, is_empty_iff request.recipient, is_empty_iff request.message)

  -- An administrator's plain query is answered, to its sender, with the data that its type names.
  pub answer_admin_query_granted :
      (request : DaraChatMsg) (s : AdminSnapshot json.Double)
      → is_admin_query request.kind ≡ true
      → request.recipient ≡ []
      → request.message ≡ []
      → answer_admin_query json request true (λ _. s) ≡ record {
        kind = admin_info;
        sender = codes "Server";
        recipient = request.sender;
        message = json.print (object (admin_body json request.kind s));
      }
  unfolding answer_admin_query
  answer_admin_query_granted request s q r m = ground arith
