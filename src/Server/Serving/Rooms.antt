-- ===== src/Server/Serving/Rooms.antt =====
-- The handlers for chat rooms keep the server's invariant.
use np_hw.Prelude.{
  ℕ, ◌≡◌, refl, ◌∙◌, true, false, some, Str, str_key, ℤ, int_key, lookup, Keeps, Keeps-bind,
  Keeps-if, Keeps-pure,
}
use np_hw.Prelude.Leads.{
  Leads, Leads-Keeps, Leads-if, Leads-bind, Leads-seq, Leads-case_option, Keeps-Leads,
}
use np_hw.Database.Types.{Chatroom}
use np_hw.Database.Rooms.{set_room}
use np_hw.Server.State.{Server, Fields, db_call}
use np_hw.Server.Rooms.{
  on_joinroom, on_list_chatroom, on_create_chatroom, on_restart_chatroom, on_close_chatroom,
  on_attach,
}
use np_hw.Server.Invariant.{
  IsServingWithin, Keeps-login_of, Leads-get_room, Leads-create_chatroom, set_room-IsServing,
}
use np_hw.Server.Serving.Rules.{Keeps-field, Keeps-int_field, serving_rules}

module _ {H : Type 0} {k : ℕ} where
  pub on_joinroom-Keeps : (rec : Fields) → Keeps (IsServingWithin {H = H} k) (on_joinroom rec)
  unfolding on_joinroom
  on_joinroom-Keeps rec = search serving_rules depth 20

  pub on_list_chatroom-Keeps :
      (rec : Fields) → Keeps (IsServingWithin {H = H} k) (on_list_chatroom rec)
  unfolding on_list_chatroom
  on_list_chatroom-Keeps rec = search serving_rules depth 20

  pub on_attach-Keeps : (rec : Fields) → Keeps (IsServingWithin {H = H} k) (on_attach rec)
  unfolding on_attach
  on_attach-Keeps rec = search serving_rules depth 20

  pub on_create_chatroom-Keeps :
      (rec : Fields) → Keeps (IsServingWithin {H = H} k) (on_create_chatroom rec)
  unfolding on_create_chatroom
  on_create_chatroom-Keeps rec = Keeps-bind _ _ (Keeps-int_field _ rec) λ id.
      Keeps-if _ _ _ (Keeps-pure _) (
        Keeps-login_of id _ λ name.
          Leads-seq _ _ (λ s h. h.0) (Keeps-int_field _ rec)
            λ port. Leads-bind _ _ (Leads-create_chatroom id port name) (λ stat. Keeps-pure _))

  -- Storing a room that was found under the name, open only if its owner is logged in.
  Leads-set_room :
      (id : ℤ) (name : Str) (found room : Chatroom)
      → room.roomname ≡ found.roomname
      → Leads
          (λ (s : Server H).
            (IsServingWithin k s × (lookup id s.logins ≡ some name))
            × (lookup name s.db.rooms ≡ some found))
          (IsServingWithin k)
          (db_call (set_room name room))
  Leads-set_room id name found room same = record {
    leads = λ s h.
        set_room-IsServing s name room h.0.0 (same ∙ h.0.0.serving.named name found h.1)
          (λ o. (id, h.0.1));
  }

  Leads-shut_room :
      (name : Str) (found : Chatroom)
      → Leads
          (λ (s : Server H). IsServingWithin k s × (lookup name s.db.rooms ≡ some found))
          (IsServingWithin k)
          (db_call (set_room name (record found { opened = false })))
  Leads-shut_room name found = record {
    leads = λ s h.
        set_room-IsServing s name _ h.0 (h.0.serving.named name found h.1) (λ o. absurd (cc));
  }

  pub on_restart_chatroom-Keeps :
      (rec : Fields) → Keeps (IsServingWithin {H = H} k) (on_restart_chatroom rec)
  unfolding on_restart_chatroom
  on_restart_chatroom-Keeps rec = Keeps-bind _ _ (Keeps-int_field _ rec) λ id.
      Keeps-if _ _ _ (Keeps-pure _) (
        Keeps-login_of id _ λ name. Leads-get_room name _ λ o.
          Leads-case_option o _ _ (λ e. Leads-Keeps (λ s h. h.0.0) (Keeps-pure _))
            λ ch e.
              Leads-if ch.opened _ _ (λ t. Leads-Keeps (λ s h. h.0.0) (Keeps-pure _))
                λ t.
                  Leads-bind _ _
                    (rw e (Leads-set_room id name ch (record ch { opened = true }) refl))
                    (λ done. Keeps-pure _))

  pub on_close_chatroom-Keeps :
      (rec : Fields) → Keeps (IsServingWithin {H = H} k) (on_close_chatroom rec)
  unfolding on_close_chatroom
  on_close_chatroom-Keeps rec = Keeps-bind _ _ (Keeps-field _ rec) λ name. Keeps-Leads _ (
      Leads-get_room name _ λ o.
        Leads-case_option o _ _ (λ e. Leads-Keeps (λ s h. h.0) (Keeps-pure _))
          λ ch e. Leads-bind _ _ (rw e (Leads-shut_room name ch)) (λ done. Keeps-pure _))
