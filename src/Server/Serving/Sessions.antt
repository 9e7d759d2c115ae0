-- ===== src/Server/Serving/Sessions.antt =====
-- The handlers for users and sessions, but `on_C_exit`, keep the server's invariant.
use np_hw.Prelude.{
  ℕ, ◌≡◌, sym, ◌∙◌, inl, inr, false, Option, none, some, List, [], ◌∷◌, Str, str_key, ℤ, int_key,
  Map, lookup, insert, remove, Exec, case_option, Keeps, Keeps-pure, Keeps-throw, arith,
  Option-cases, leb, length,
}
use np_hw.Prelude.Leads.{
  Leads, Leads-Keeps, Leads-if, Leads-bind, Leads-case_option, Leads-gets, Keeps-Leads,
}
use np_hw.Database.Types.{Chatroom}
use np_hw.Database.Users.{Sqlite}
use np_hw.Server.State.{Server, Fields, sql_call, set_logins}
use np_hw.Server.Sessions.{
  on_register, on_login, on_whoami, on_logout, on_list_user, open_session, close_session,
  draw_token, max_clients,
}
use np_hw.Server.Invariant.{
  IsServingWithin, Keeps-login_of, Leads-get_room, login-IsServing, logout-IsServing,
}
use np_hw.Server.Serving.Rules.{serving_rules}

pub draw_token-free :
    (logins : Map ℤ Str) (draws : List ℤ) (ran : ℤ)
    → draw_token logins draws ≡ some ran
    → lookup ran logins ≡ none
unfolding draw_token
draw_token-free logins [] ran e = cc
draw_token-free logins (d ∷ draws) ran e = elim (Option-cases (lookup d logins)) [
  | inl free ↦ ground arith
  | inr (name, taken) ↦
      draw_token-free logins draws ran (unfold case_option in (rw (taken, draw_token) at e))
]

module _ {H : Type 0} {k : ℕ} where
  pub on_whoami-Keeps : (rec : Fields) → Keeps (IsServingWithin {H = H} k) (on_whoami rec)
  unfolding on_whoami
  on_whoami-Keeps rec = search serving_rules depth 20

  Leads-remove :
      (id : ℤ) (name : Str) (o : Option Chatroom)
      → ((r : Chatroom) → o ≡ some r → r.opened ≡ false)
      → Leads
          (λ (s : Server H).
            (IsServingWithin k s × (lookup id s.logins ≡ some name)) × (lookup name s.db.rooms ≡ o))
          (IsServingWithin k)
          (set_logins (remove id))
  unfolding set_logins
  Leads-remove id name o shut = record {
    leads = λ s h. record {
      serving = logout-IsServing s id name h.0.0.serving h.0.1 (λ r e. shut r (sym h.1 ∙ e));
      counted = h.0.0.counted;
    };
  }

  pub close_session-Keeps :
      (id : ℤ) (out : Fields) → Keeps (IsServingWithin {H = H} k) (close_session id out)
  unfolding close_session
  close_session-Keeps id out = Keeps-login_of id _ λ name. Leads-get_room name _ λ o.
      Leads-case_option o _ _
        (λ e. Leads-bind _ _ (Leads-remove id name o (λ r k. cc)) (λ done. Keeps-pure _))
        λ cr e.
          Leads-if cr.opened _ _ (λ t. Leads-Keeps (λ s h. h.0.0) (Keeps-pure _))
            λ t.
              Leads-bind _ _ (Leads-remove id name o (λ r k. ground arith)) (λ done. Keeps-pure _)

  pub on_logout-Keeps : (rec : Fields) → Keeps (IsServingWithin {H = H} k) (on_logout rec)
  unfolding on_logout
  on_logout-Keeps rec = search (serving_rules, close_session-Keeps) depth 20

  Leads-insert :
      (logins : Map ℤ Str) (id : ℤ) (name : Str)
      → lookup id logins ≡ none
      → Leads
          (λ (s : Server H). IsServingWithin k s × (s.logins ≡ logins))
          (IsServingWithin k)
          (set_logins (insert id name))
  unfolding set_logins
  Leads-insert logins id name free = record {
    leads = λ s h. record {
      serving = login-IsServing s id name h.0.serving (rw h.1 free);
      counted = h.0.counted;
    };
  }

  pub open_session-Keeps :
      (draws : List ℤ) (name : Str) → Keeps (IsServingWithin {H = H} k) (open_session draws name)
  unfolding open_session
  open_session-Keeps draws name = Keeps-Leads _ (
      Leads-gets _ _ λ logins.
        Leads-if (leb max_clients (length logins)) _ _
          (λ t. Leads-Keeps (λ s h. h.0) (Keeps-throw _))
          λ t.
            Leads-case_option (draw_token logins draws) _ _
              (λ e. Leads-Keeps (λ s h. h.0) (Keeps-pure _))
              λ ran e.
                Leads-bind _ _ (Leads-insert logins ran name (draw_token-free logins draws ran e))
                  (λ done. Keeps-pure _))

  pub Keeps-sql_call : {A : Type 0} (m : Exec H A) → Keeps (IsServingWithin {H = H} k) (sql_call m)
  unfolding sql_call
  Keeps-sql_call m = record {
    keeps = λ s h. record {
      serving = record {
        database = h.serving.database;
        named = h.serving.named;
        hosted = h.serving.hosted;
      };
      counted = h.counted;
    };
  }

module _ (sql : Sqlite) {k : ℕ} where
  pub on_register-Keeps : (rec : Fields) → Keeps (IsServingWithin k) (on_register sql rec)
  unfolding on_register
  on_register-Keeps rec = search (serving_rules, Keeps-sql_call) depth 20

  pub on_login-Keeps :
      (draws : List ℤ) (rec : Fields) → Keeps (IsServingWithin k) (on_login sql draws rec)
  unfolding on_login
  on_login-Keeps draws rec = search (serving_rules, Keeps-sql_call, open_session-Keeps) depth 24

  pub on_list_user-Keeps : Keeps (IsServingWithin k) (on_list_user sql)
  unfolding on_list_user
  on_list_user-Keeps = search (serving_rules, Keeps-sql_call) depth 20
