-- ===== src/Platform/Logging.antt =====
-- internal/platform/logging: the level of a logger, and the writer that passes records on to
-- Logstash. The goroutine `run` and the callers of `Write` act in any order: a schedule is a list of
-- events, each a call of `Write` or one action of `run` with the answer of the network.
pub mod Delivery
use uban_z.Prelude.{
  ℕ, suc, ltb, String, Bool, true, false, List, [], ◌∷◌, ◌++◌, length, Option, none, some, ◌==◌,
  Result, ok, err, if◌then◌else◌,
}
use Prim.Native.String

pub data Level : Type 0 where
  debug info warn error : Level

-- The switch of `New`; %q is a parameter.
unfoldable pub level_of : (String → String) → String → Result String Level
level_of quote level =
    if level == "debug"
    then ok debug
    else if level == "info"
    then ok info
    else if level == "warn"
    then ok warn
    else if level == "error"
    then ok error
    else err (String.◌++◌ "unknown log level " (quote level))

abbrev pub logstash_queue_size : ℕ
logstash_queue_size = 1024

-- The channel, the message that `run` has taken out of it, and whether it has a connection;
-- `accepted` are the messages that the channel took and `sent` those that a connection took.
pub record Writer : Type 0 where
  pub queue : List String
  pub in_flight : Option String
  pub connected : Bool
  pub accepted : List String
  pub sent : List String

abbrev pub new_writer : Writer
new_writer = record { queue = []; in_flight = none; connected = false; accepted = []; sent = [] }

-- `Write` never waits: a message that the channel has no room for is dropped.
unfoldable pub write : String → Writer → Writer
write msg w =
    if ltb (length w.queue) logstash_queue_size
    then record w { queue = w.queue ++ msg ∷ []; accepted = w.accepted ++ msg ∷ [] }
    else w

abbrev take_next : List String → Writer → Writer
take_next [] w = w
take_next (m ∷ queue) w = record w { queue = queue; in_flight = some m }

-- Dial if there is no connection, else write; after a failure the same message is tried again.
abbrev attempt : Bool → Bool → String → Writer → Writer
attempt false answer msg w = record w { connected = answer }
attempt true true msg w = record w { in_flight = none; sent = w.sent ++ msg ∷ [] }
attempt true false msg w = record w { connected = false }

abbrev act : Option String → Bool → Writer → Writer
act none answer w = take_next w.queue w
act (some msg) answer w = attempt w.connected answer msg w

-- One action of `run`.
unfoldable pub run : Bool → Writer → Writer
run answer w = act w.in_flight answer w

pub data Event : Type 0 where
  writes : String → Event
  runs : Bool → Event

abbrev pub step : Event → Writer → Writer
step (writes msg) w = write msg w
step (runs answer) w = run answer w

unfoldable pub schedule : List Event → Writer → Writer
unfolding write run
schedule [] w = w
schedule (e ∷ events) w = schedule events (step e w)
