-- ===== src/Server/Serving/Boards.antt =====
-- The handlers for boards and posts keep the server's invariant.
use np_hw.Prelude.{
  ℕ, str_key, int_key, Keeps, Keeps-pure, suc, ◌+◌, ◌^◌, ◌<◌, arith, int_eq, minus_one,
}
use np_hw.Prelude.Leads.{Leads, Leads-Keeps, Leads-if, Leads-bind, Leads-seq}
use np_hw.Database.Types.{Tm}
use np_hw.Server.State.{Server, Fields}
use np_hw.Server.Boards.{
  on_create_board, on_create_post, on_list_board, on_list_post, on_read_post, on_delete_post,
  on_update_post, on_comment,
}
use np_hw.Server.Invariant.{IsServingWithin}
use np_hw.Server.Serving.Rules.{
  serving_rules, Keeps-field, Keeps-int_field, Keeps-login, Leads-create_post,
}

module _ {H : Type 0} {k : ℕ} where
  pub one_more : (s : Server H) → IsServingWithin k s → IsServingWithin (suc k) s
  one_more s h = record { serving = h.serving; counted = omega (arith, h.counted) }

  pub on_create_board-Keeps :
      (rec : Fields) → Keeps (IsServingWithin {H = H} k) (on_create_board rec)
  unfolding on_create_board
  on_create_board-Keeps rec = search serving_rules depth 20

  pub on_create_post-Leads :
      (now : Tm) (rec : Fields)
      → k + 1 < 2 ^ 31
      → Leads (IsServingWithin {H = H} k) (IsServingWithin (suc k)) (on_create_post now rec)
  unfolding on_create_post
  on_create_post-Leads now rec room = Leads-seq _ _ one_more (Keeps-field _ rec) λ type.
      Leads-seq _ _ one_more (Keeps-int_field _ rec) λ id.
        Leads-if (int_eq id minus_one) _ _ (λ t. Leads-Keeps one_more (Keeps-pure _))
          λ t. Leads-seq _ _ one_more (Keeps-login id) λ username.
            Leads-seq _ _ one_more (Keeps-field _ rec) λ boardname.
              Leads-seq _ _ one_more (Keeps-field _ rec) λ title.
                Leads-seq _ _ one_more (Keeps-field _ rec) λ content.
                  Leads-bind _ _ (Leads-create_post boardname title content username now room)
                    (λ text. Keeps-pure _)

  pub on_list_board-Keeps : (rec : Fields) → Keeps (IsServingWithin {H = H} k) (on_list_board rec)
  unfolding on_list_board
  on_list_board-Keeps rec = search serving_rules depth 20

  pub on_list_post-Keeps : (rec : Fields) → Keeps (IsServingWithin {H = H} k) (on_list_post rec)
  unfolding on_list_post
  on_list_post-Keeps rec = search serving_rules depth 20

  pub on_read_post-Keeps : (rec : Fields) → Keeps (IsServingWithin {H = H} k) (on_read_post rec)
  unfolding on_read_post
  on_read_post-Keeps rec = search serving_rules depth 20

  pub on_delete_post-Keeps : (rec : Fields) → Keeps (IsServingWithin {H = H} k) (on_delete_post rec)
  unfolding on_delete_post
  on_delete_post-Keeps rec = search serving_rules depth 20

  pub on_update_post-Keeps : (rec : Fields) → Keeps (IsServingWithin {H = H} k) (on_update_post rec)
  unfolding on_update_post
  on_update_post-Keeps rec = search serving_rules depth 20

  pub on_comment-Keeps : (rec : Fields) → Keeps (IsServingWithin {H = H} k) (on_comment rec)
  unfolding on_comment
  on_comment-Keeps rec = search serving_rules depth 20
