-- ===== src/Ui/Dialog/Connects.antt =====
-- The handler of `Connect`, and the buttons that are enabled only between commands.
use hs_financial_services.Common.{
  ◌≡◌, refl, sym, subst, ◌∙◌, ◌⊎◌, inl, inr, Bool, true, false, Option, none, some, List, [], ◌∷◌,
  arith,
}
use hs_financial_services.Common.Int.{ℤ}
use hs_financial_services.Ui.Worker.{Line, Desktop, Worker}
use hs_financial_services.Ui.Dialog.{
  Dialog, post_lines, Attempt, no_socket, refused, connects, try_connect, do_connect, connecting,
  established, not_established, end_connect, connect_to,
}
use hs_financial_services.Ui.Dialog.Threads.{busy, dones-logged}
use hs_financial_services.Ui.Dialog.Consistent.{IsConsistent, post_lines-IsConsistent}

-- The connection is made, or the worker stays as it was.
try_connect-cases :
    (attempts : List Attempt) (w : Worker)
    → ((try_connect attempts w).0 ≡ false × (try_connect attempts w).1 ≡ w)
      ⊎ ((try_connect attempts w).0 ≡ true
          × (try_connect attempts w).1.connected ≡ true
          × (try_connect attempts w).1.socket_open ≡ true)
try_connect-cases [] w = inl (refl, refl)
try_connect-cases (no_socket ∷ attempts) w = try_connect-cases attempts w
try_connect-cases (refused ∷ attempts) w = try_connect-cases attempts w
try_connect-cases (connects accepts arrivals ∷ attempts) w = inr (refl, refl, refl)

abbrev Connected : Worker → Bool × Worker → Type 0
Connected before (worked, w) =
    (worked ≡ false × w ≡ before) ⊎ (worked ≡ true × w.connected ≡ true × w.socket_open ≡ true)

do_connect-Connected :
    (resolved : Option (List Attempt)) (w : Worker) → Connected w (do_connect resolved w)
unfolding do_connect
do_connect-Connected none w = inl (refl, refl)
do_connect-Connected (some attempts) w = try_connect-cases attempts w

end_connect-IsConsistent :
    (error : ℤ) (p : Bool × Worker) (s : Dialog)
    → IsConsistent s
    → busy s ≡ 0
    → Connected s.worker p
    → IsConsistent (end_connect error p s)
end_connect-IsConsistent error (true, w) s c ended (inl (e, same)) = cc
end_connect-IsConsistent error (true, w) s c ended (inr (e, on, open_)) =
    post_lines-IsConsistent established _ (record {
      linked = open_ ∙ sym on;
      buttons = inl (record {
        ended = ended;
        may_connect = rw on refl;
        may_disconnect = sym on;
        may_run = sym on;
      });
    })
end_connect-IsConsistent error (false, w) s c ended (inl (e, same)) =
    post_lines-IsConsistent (not_established error) (record s { worker = w })
      (subst (λ v. IsConsistent (record s { worker = v })) (sym same) c)
end_connect-IsConsistent error (false, w) s c ended (inr (e, on, open_)) = cc

-- `Connect` and `Disconnect` are enabled only if no command runs.
pub connect-idle : (s : Dialog) → IsConsistent s → s.connect_enabled ≡ true → busy s ≡ 0
connect-idle s c on = elim c.buttons [ inl i ↦ i.ended | inr i ↦ cc ]

pub disconnect-idle : (s : Dialog) → IsConsistent s → s.disconnect_enabled ≡ true → busy s ≡ 0
disconnect-idle s c on = elim c.buttons [ inl i ↦ i.ended | inr i ↦ cc ]

pub connect_to-IsConsistent :
    (host : Line) (d : Desktop) (resolved : Option (List Attempt)) (error : ℤ) (s : Dialog)
    → IsConsistent s
    → busy s ≡ 0
    → IsConsistent (connect_to host d resolved error s)
unfolding connect_to
connect_to-IsConsistent [] d resolved error s c ended = c
connect_to-IsConsistent (h ∷ hs) d resolved error s c ended =
    end_connect-IsConsistent error (do_connect resolved s.worker)
      (post_lines ([] ∷ connecting d s ∷ []) s)
      (post_lines-IsConsistent ([] ∷ connecting d s ∷ []) s c)
      (omega (arith, ended, dones-logged s.queue ([] ∷ connecting d s ∷ [])))
      (do_connect-Connected resolved s.worker)
