-- ===== src/Bot/Workers/Replay.antt =====
-- As long as no worker has failed, the session is what saving the groups in turn makes of it.
use uban_z.Prelude.{ℕ, ok, then_run, List, [], ◌∷◌, ◌≡◌, refl, ap, ◌∙◌}
use uban_z.Bot.Session.{Session}
use uban_z.Bot.Source.{Group}
use uban_z.Bot.Workers.{
  save_in_turn, Saving, Pool, start, Step, send, cancel, stop_by_error, stop_by_cancel, sent_all,
  take, leave, saved, failing, return, Reach, here, next,
}

pub record IsReplay (save : Saving) (s : Session) (p : Pool) : Type 0 where
  pub replayed : p.failed ≡ [] → save_in_turn save p.processed s ≡ (ok tt, p.store)

one_more :
    (save : Saving) (g : Group) (gs : List Group) (s before after : Session)
    → save_in_turn save gs s ≡ (ok tt, before)
    → save g before ≡ (ok tt, after)
    → save_in_turn save (g ∷ gs) s ≡ (ok tt, after)
unfolding save_in_turn
one_more save g gs s before after h k = ap (λ r. then_run (λ u. save g) r.0 r.1) h ∙ k

Step-IsReplay :
    {save : Saving} {s : Session} {p p' : Pool}
    → Step save p p'
    → IsReplay save s p
    → IsReplay save s p'
Step-IsReplay (send p g rest ph pe lt) w = record { replayed = w.replayed }
Step-IsReplay (cancel p c) w = record { replayed = w.replayed }
Step-IsReplay (stop_by_error p g rest e ph pe ch) w = record { replayed = w.replayed }
Step-IsReplay (stop_by_cancel p g rest ph pe c) w = record { replayed = w.replayed }
Step-IsReplay (sent_all p ph pe) w = record { replayed = w.replayed }
Step-IsReplay (take p k g rest f j) w = record { replayed = w.replayed }
Step-IsReplay (leave p k end f j ph) w = record { replayed = w.replayed }
Step-IsReplay {save} {s} (saved p before after g t b sv) w = record {
  replayed = λ h. one_more save g p.processed s p.store t (w.replayed h) sv;
}
Step-IsReplay (failing p before after g e t b sv) w = record { replayed = λ h. absurd cc }
Step-IsReplay (return p end ph f b) w = record { replayed = w.replayed }

start-IsReplay :
    (save : Saving) (s : Session) (groups : List Group) → IsReplay save s (start s groups)
unfolding save_in_turn
start-IsReplay save s groups = record { replayed = λ h. refl }

pub Reach-IsReplay :
    {save : Saving} {s : Session} {groups : List Group} {n : ℕ} {p : Pool}
    → Reach save (start s groups) n p
    → IsReplay save s p
Reach-IsReplay {save} {s} {groups} here = start-IsReplay save s groups
Reach-IsReplay (next r st) = Step-IsReplay st (Reach-IsReplay r)
