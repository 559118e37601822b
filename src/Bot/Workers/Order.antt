-- ===== src/Bot/Workers/Order.antt =====
-- What the workers and the loop know of each other.
use uban_z.Prelude.{
  ℕ, ◌+◌, ◌<◌, true, List, [], ◌∷◌, ◌++◌, length, length-append, Option, none, some, ◌≡◌, ◌≢◌, refl,
  sym, ap, subst, inl, inr, ◌⊎◌, arith,
}
use uban_z.Bot.Session.{Error, Session}
use uban_z.Bot.Source.{Group}
use uban_z.Bot.Workers.{
  Ending, by_error, by_cancel, by_end, Phase, sending, waiting, returned, Saving, Pool, start,
  workers, result, offer, Step, send, cancel, stop_by_error, stop_by_cancel, sent_all, take, leave,
  saved, failing, return, Reach, here, next,
}

abbrev pub EndedByError : Phase → Type 0
EndedByError sending = ⊥
EndedByError (waiting (by_error e)) = Unit
EndedByError (waiting by_cancel) = ⊥
EndedByError (waiting by_end) = ⊥
EndedByError (returned none) = ⊥
EndedByError (returned (some e)) = Unit

-- The channel is closed and the loop is behind its last group.
abbrev pub SentAll : Phase → Type 0
SentAll (waiting by_end) = Unit
SentAll (returned none) = Unit
SentAll _ = ⊥

pub record IsOrderly (p : Pool) : Type 0 where
  pub team : p.free + (length p.busy + (p.left + length p.failed)) ≡ workers
  pub drained : 0 < p.left → (p.jobs ≡ []) × (p.phase ≢ sending)
  pub noticed :
      0 < length p.failed → (p.cancelled ≡ true) × ((p.err_ch ≢ none) ⊎ EndedByError p.phase)
  pub sent : SentAll p.phase → p.pending ≡ []
  pub reported : 0 < length p.failed → p.phase ≢ returned none
  pub done : (r : Option Error) → p.phase ≡ returned r → (p.free ≡ 0) × (p.busy ≡ [])

nonempty :
    {busy : List Group} (before after : List Group) (g : Group)
    → busy ≡ before ++ g ∷ after
    → busy ≡ []
    → ⊥
nonempty before after g b e = omega (
  arith,
  ap (length {A = Group}) b,
  ap (length {A = Group}) e,
  length-append {A = Group} before (g ∷ after),
)

offered : (e : Error) (ch : Option Error) → offer e ch ≢ none
offered e none h = cc
offered e (some first) h = cc

not_sent : {ph : Phase} → ph ≡ sending → SentAll ph → ⊥
not_sent e h = subst SentAll e h

not_by_error : {ph : Phase} → ph ≡ sending → EndedByError ph → ⊥
not_by_error e h = subst EndedByError e h

sent_result :
    (end : Ending) (ch : Option Error) → SentAll (returned (result end ch)) → SentAll (waiting end)
unfolding result
sent_result (by_error e) ch h = h
sent_result by_cancel none h = h
sent_result by_cancel (some e) h = h
sent_result by_end ch h = tt

-- An error that a worker has met is the result, or is still to be found.
error_result :
    (end : Ending) (ch : Option Error)
    → (ch ≢ none) ⊎ EndedByError (waiting end)
    → EndedByError (returned (result end ch))
unfolding result
error_result (by_error e) ch h = tt
error_result by_cancel none h = tt
error_result by_cancel (some e) h = tt
error_result by_end none (inl h) = h refl
error_result by_end none (inr h) = h
error_result by_end (some e) h = tt

found :
    (p : Pool) (end : Ending)
    → p.phase ≡ waiting end
    → (p.err_ch ≢ none) ⊎ EndedByError p.phase
    → (p.err_ch ≢ none) ⊎ EndedByError (waiting end)
found p end ph (inl n) = inl n
found p end ph (inr n) = inr (subst EndedByError ph n)

ending_error :
    (p : Pool) (end : Ending)
    → p.phase ≡ waiting end
    → (p.err_ch ≢ none) ⊎ EndedByError p.phase
    → returned (result end p.err_ch) ≡ returned none
    → ⊥
ending_error p end ph h q = subst EndedByError q (error_result end p.err_ch (found p end ph h))

Step-IsOrderly : {save : Saving} {p p' : Pool} → Step save p p' → IsOrderly p → IsOrderly p'
Step-IsOrderly (send p g rest ph pe lt) o = record {
  team = o.team;
  drained = λ h. absurd ((o.drained h).1 ph);
  noticed = o.noticed;
  sent = λ h. absurd (not_sent ph h);
  reported = o.reported;
  done = o.done;
}
Step-IsOrderly (cancel p c) o = record {
  team = o.team;
  drained = o.drained;
  noticed = λ h. (refl, (o.noticed h).1);
  sent = o.sent;
  reported = o.reported;
  done = o.done;
}
Step-IsOrderly (stop_by_error p g rest e ph pe ch) o = record {
  team = o.team;
  drained = λ h. absurd ((o.drained h).1 ph);
  noticed = λ h. (refl, inr tt);
  sent = λ h. absurd h;
  reported = λ h q. cc;
  done = λ r h. cc;
}
Step-IsOrderly (stop_by_cancel p g rest ph pe c) o = record {
  team = o.team;
  drained = λ h. absurd ((o.drained h).1 ph);
  noticed = λ h. elim (o.noticed h).1 [ inl n ↦ (c, inl n) | inr n ↦ absurd (not_by_error ph n) ];
  sent = λ h. absurd h;
  reported = λ h q. cc;
  done = λ r h. cc;
}
Step-IsOrderly (sent_all p ph pe) o = record {
  team = o.team;
  drained = λ h. absurd ((o.drained h).1 ph);
  noticed = λ h. elim (o.noticed h).1 [
    | inl n ↦ ((o.noticed h).0, inl n)
    | inr n ↦ absurd (not_by_error ph n)
  ];
  sent = λ h. pe;
  reported = λ h q. cc;
  done = λ r h. cc;
}
Step-IsOrderly (take p k g rest f j) o = record {
  team = omega (arith, o.team, f);
  drained = λ h. absurd (cc (o.drained h).0);
  noticed = o.noticed;
  sent = o.sent;
  reported = o.reported;
  done = λ r h. absurd (omega (arith, (o.done r h).0, f));
}
Step-IsOrderly (leave p k end f j ph) o = record {
  team = omega (arith, o.team, f);
  drained = λ h. (j, λ q. cc);
  noticed = o.noticed;
  sent = o.sent;
  reported = λ h q. cc;
  done = λ r h. cc;
}
Step-IsOrderly (saved p before after g s b sv) o = record {
  team = omega (
    arith,
    o.team,
    ap (length {A = Group}) b,
    length-append {A = Group} before (g ∷ after),
    length-append {A = Group} before after,
  );
  drained = o.drained;
  noticed = o.noticed;
  sent = o.sent;
  reported = o.reported;
  done = λ r h. absurd (nonempty before after g b (o.done r h).1);
}
Step-IsOrderly (failing p before after g e s b sv) o = record {
  team = omega (
    arith,
    o.team,
    ap (length {A = Group}) b,
    length-append {A = Group} before (g ∷ after),
    length-append {A = Group} before after,
  );
  drained = o.drained;
  noticed = λ h. (refl, inl (offered e p.err_ch));
  sent = o.sent;
  reported = λ h q. nonempty before after g b (o.done none q).1;
  done = λ r h. absurd (nonempty before after g b (o.done r h).1);
}
Step-IsOrderly (return p end ph f b) o = record {
  team = o.team;
  drained = λ h. ((o.drained h).0, λ q. cc);
  noticed =
      λ h. ((o.noticed h).0, inr (error_result end p.err_ch (found p end ph (o.noticed h).1)));
  sent = λ h. o.sent (subst SentAll (sym ph) (sent_result end p.err_ch h));
  reported = λ h q. ending_error p end ph (o.noticed h).1 q;
  done = λ r h. (f, b);
}

start-IsOrderly : (s : Session) (groups : List Group) → IsOrderly (start s groups)
start-IsOrderly s groups = record {
  team = refl;
  drained = λ h. absurd (omega (arith, h));
  noticed = λ h. absurd (omega (arith, h));
  sent = λ h. absurd h;
  reported = λ h q. cc;
  done = λ r h. cc;
}

pub Reach-IsOrderly :
    {save : Saving} {s : Session} {groups : List Group} {n : ℕ} {p : Pool}
    → Reach save (start s groups) n p
    → IsOrderly p
Reach-IsOrderly {s} {groups} here = start-IsOrderly s groups
Reach-IsOrderly (next r st) = Step-IsOrderly st (Reach-IsOrderly r)
