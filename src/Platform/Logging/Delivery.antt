-- ===== src/Platform/Logging/Delivery.antt =====
-- No record that the channel took is lost, doubled or overtaken, and all of them arrive.
use mathlib.Core.List.{append_assoc, append-nil}
use uban_z.Prelude.{
  ℕ, zero, suc, ◌+◌, ◌*◌, ◌≤◌, ltb, String, Bool, true, false, List, [], ◌∷◌, ◌++◌, length,
  length-append, Option, none, some, if◌then◌else◌, ◌≡◌, refl, sym, ap, ◌∙◌, inl, inr, arith,
  Bool-cases, Option-cases,
}
use uban_z.Platform.Logging.{
  Writer, Event, writes, runs, new_writer, write, run, step, schedule, logstash_queue_size,
}

abbrev pub held : Option String → List String
held none = []
held (some m) = m ∷ []

-- What was sent, then what is being sent, then what waits, is what was accepted.
pub record IsFaithful (w : Writer) : Type 0 where
  pub order : w.sent ++ (held w.in_flight ++ w.queue) ≡ w.accepted
  pub bounded : length w.queue ≤ logstash_queue_size

write-IsFaithful : (msg : String) (w : Writer) → IsFaithful w → IsFaithful (write msg w)
unfolding write
write-IsFaithful msg w f = elim (Bool-cases (ltb (length w.queue) logstash_queue_size)) [
  | inr e ↦ rw e f
  | inl e ↦ rw e (record {
    order =
        ap (λ l. w.sent ++ l) (sym (append_assoc (held w.in_flight) w.queue (msg ∷ [])))
        ∙ sym (append_assoc w.sent (held w.in_flight ++ w.queue) (msg ∷ []))
        ∙ ap (λ l. l ++ msg ∷ []) f.order;
    bounded = ground (arith, length-append w.queue (msg ∷ []));
  })
]

abbrev writer_of : List String → Option String → Bool → List String → List String → Writer
writer_of queue in_flight connected accepted sent = record {
  queue = queue;
  in_flight = in_flight;
  connected = connected;
  accepted = accepted;
  sent = sent;
}

run_keeps :
    (queue : List String) (in_flight : Option String) (connected : Bool)
    (accepted sent : List String) (answer : Bool)
    → IsFaithful (writer_of queue in_flight connected accepted sent)
    → IsFaithful (run answer (writer_of queue in_flight connected accepted sent))
unfolding run
run_keeps [] none connected accepted sent answer f = f
run_keeps (m ∷ queue) none connected accepted sent answer f = record {
  order = f.order;
  bounded = omega (arith, f.bounded);
}
run_keeps queue (some m) false accepted sent answer f = record {
  order = f.order;
  bounded = f.bounded;
}
run_keeps queue (some m) true accepted sent true f = record {
  order = append_assoc sent (m ∷ []) queue ∙ f.order;
  bounded = f.bounded;
}
run_keeps queue (some m) true accepted sent false f = record {
  order = f.order;
  bounded = f.bounded;
}

step-IsFaithful : (e : Event) (w : Writer) → IsFaithful w → IsFaithful (step e w)
step-IsFaithful (writes msg) w f = write-IsFaithful msg w f
step-IsFaithful (runs answer) w f =
    run_keeps w.queue w.in_flight w.connected w.accepted w.sent answer f

schedule_keeps : (events : List Event) (w : Writer) → IsFaithful w → IsFaithful (schedule events w)
unfolding schedule
schedule_keeps [] w f = f
schedule_keeps (e ∷ events) w f = schedule_keeps events (step e w) (step-IsFaithful e w f)

-- Whatever the callers and the network do: what the connections took, what is on the way and what waits are together the messages that the channel took, in that order; and no more wait than the channel has room for.
pub schedule-IsFaithful : (events : List Event) → IsFaithful (schedule events new_writer)
schedule-IsFaithful events =
    schedule_keeps events new_writer (record { order = refl; bounded = omega arith })

-- How many actions are left when the network answers.
abbrev pub work : Writer → ℕ
work w = 2 * length w.queue + (length (held w.in_flight) + (if w.connected then 0 else 1))

unfoldable pub answered : ℕ → List Event
answered zero = []
answered (suc n) = runs true ∷ answered n

schedule-append :
    (events more : List Event) (w : Writer)
    → schedule (events ++ more) w ≡ schedule more (schedule events w)
unfolding schedule
schedule-append [] more w = refl
schedule-append (e ∷ events) more w = schedule-append events more (step e w)

idle :
    (n : ℕ) (connected : Bool) (accepted sent : List String)
    → sent ≡ accepted
    → (schedule (answered n) (writer_of [] none connected accepted sent)).sent ≡ accepted
unfolding schedule run answered
idle zero connected accepted sent o = o
idle (suc n) connected accepted sent o = idle n connected accepted sent o

drained :
    (n : ℕ) (queue : List String) (in_flight : Option String) (connected : Bool)
    (accepted sent : List String)
    → work (writer_of queue in_flight connected accepted sent) ≤ n
    → sent ++ (held in_flight ++ queue) ≡ accepted
    → (schedule (answered n) (writer_of queue in_flight connected accepted sent)).sent ≡ accepted
unfolding schedule run answered
drained zero [] none connected accepted sent h o = sym (append-nil sent) ∙ o
drained zero [] (some m) connected accepted sent h o = absurd (omega (arith, h))
drained zero (m ∷ queue) in_flight connected accepted sent h o = absurd (omega (arith, h))
drained (suc n) [] none connected accepted sent h o =
    idle n connected accepted sent (sym (append-nil sent) ∙ o)
drained (suc n) (m ∷ queue) none connected accepted sent h o =
    drained n queue (some m) connected accepted sent (omega (arith, h)) o
drained (suc n) queue (some m) false accepted sent h o =
    drained n queue (some m) true accepted sent (omega (arith, h)) o
drained (suc n) queue (some m) true accepted sent h o =
    drained n queue none true accepted (sent ++ m ∷ []) (omega (arith, h))
      (append_assoc sent (m ∷ []) queue ∙ o)

work_bounds : (w : Writer) → IsFaithful w → work w ≤ 2050
work_bounds w f = elim (Option-cases w.in_flight) [
  | inl e ↦ rw e (elim (Bool-cases w.connected) [
    | inl c ↦ rw c (omega (arith, f.bounded))
    | inr c ↦ rw c (omega (arith, f.bounded))
  ])
  | inr (m, e) ↦ rw e (elim (Bool-cases w.connected) [
    | inl c ↦ rw c (omega (arith, f.bounded))
    | inr c ↦ rw c (omega (arith, f.bounded))
  ])
]

-- Whatever calls of `Write` and answers of the network came before: what the connections took,
-- what is on the way and what waits are together the messages that the queue took, in that order,
-- and no more wait than the queue has room for; and 2050 further actions that the network answers
-- send every message that the queue took, in that order.
pub schedule-sent :
    (events : List Event) (n : ℕ)
    → 2050 ≤ n
    → IsFaithful (schedule events new_writer)
      × ((schedule (events ++ answered n) new_writer).sent ≡ (schedule events new_writer).accepted)
schedule-sent events n enough =
    let w = schedule events new_writer in
    let f = schedule-IsFaithful events in
    (
      f,
      ap (λ v. v.sent) (schedule-append events (answered n) new_writer)
          ∙ drained n w.queue w.in_flight w.connected w.accepted w.sent
              (omega (arith, work_bounds w f)) f.order,
    )
