-- ===== src/Login/Frame.antt =====
-- A login frame of the clients, and how the server splits it.
use u_dara_chat.Base.{
  ◌≡◌, refl, ap, ◌∙◌, [], ◌∷◌, ◌++◌, Text, codes, text_eq, any_of, getlines, drop,
}
use u_dara_chat.Chat.Find.{append-Free, Free}
use u_dara_chat.Chat.Message.{find_first}
use u_dara_chat.Chat.Split.{getlines-append, getlines-last}
use u_dara_chat.Login.Fields.{Fields, field, emplace, add_part, add_parts}
use u_dara_chat.Login.Verify.{accepted, login_fields}

-- `connect:` with a name, a zone, a group and a pass.
abbrev pub login_text : Text → Text → Text → Text → Text
login_text name zone group pass =
    codes "connect:name="
    ++ (name
        ++ (codes ";zone=" ++ (zone ++ (codes ";group=" ++ (group ++ (codes ";pass=" ++ pass))))))

abbrev pub fields_of : Text → Text → Text → Text → Fields
fields_of name zone group pass =
    (codes "pass", pass) ∷ (codes "group", group) ∷ (codes "zone", zone) ∷ (codes "name", name) ∷ []

module _ (name zone group pass : Text) (fn : Free b';' name) (fz : Free b';' zone)
    (fg : Free b';' group) (fp : Free b';' pass) where
  parts_of :
      getlines b';' (drop 8 (login_text name zone group pass))
      ≡ (codes "name=" ++ name)
        ∷ (codes "zone=" ++ zone)
        ∷ (codes "group=" ++ group)
        ∷ (codes "pass=" ++ pass)
        ∷ []
  parts_of =
      getlines-append b';' (codes "name=" ++ name) _
        (append-Free b';' (codes "name=") name (unfold any_of in refl) fn)
      ∙ ap (λ x. (codes "name=" ++ name) ∷ x)
          (getlines-append b';' (codes "zone=" ++ zone) _
              (append-Free b';' (codes "zone=") zone (unfold any_of in refl) fz)
            ∙ ap (λ x. (codes "zone=" ++ zone) ∷ x)
                (getlines-append b';' (codes "group=" ++ group) _
                    (append-Free b';' (codes "group=") group (unfold any_of in refl) fg)
                  ∙ ap (λ x. (codes "group=" ++ group) ∷ x)
                      (getlines-last b';' (codes "pass=" ++ pass)
                        (append-Free b';' (codes "pass=") pass (unfold any_of in refl) fp)
                        (λ q. cc))))

  pub login_fields-login_text :
      login_fields (login_text name zone group pass) ≡ accepted (fields_of name zone group pass)
  unfolding login_fields add_parts add_part find_first emplace field text_eq
  login_fields-login_text = rw parts_of refl
