-- ===== src/Platform/Publisher.antt =====
-- internal/adapter/booking/rabbitmq/publisher.go and internal/adapter/booking/noop/publisher.go. What
-- the AMQP client answers to each call is a parameter; the state says what is open at the broker.
use uban_z.Prelude.{
  ℕ, suc, ◌-◌, String, List, [], ◌∷◌, ◌++◌, Option, none, some, Result, ok, err, ◌≡◌, arith,
}
use uban_z.Booking.Domain.{Error, wrap}
use uban_z.Booking.Ports.{Event}
use Prim.Native.String

pub record Broker : Type 0 where
  pub connections : ℕ
  pub channels : ℕ

-- The answers of the client: `none` is success.
pub record Client : Type 0 where
  pub dial : Option Error
  pub open_channel : Option Error
  pub declare : Option Error
  pub confirm : Option Error
  pub close_channel : Option Error
  pub close_connection : Option Error
  pub marshal : Event → Result Error String
  pub publish : String → String → Option Error
  pub quote : String → String

pub record Publisher : Type 0 where
  pub exchange : String

abbrev with_connection : Broker → Broker
with_connection b = record b { connections = suc b.connections }

abbrev with_channel : Broker → Broker
with_channel b = record b { channels = suc b.channels }

-- `Close` ends a channel or a connection whatever it answers.
abbrev without_connection : Broker → Broker
without_connection b = record b { connections = b.connections - 1 }

abbrev without_channel : Broker → Broker
without_channel b = record b { channels = b.channels - 1 }

abbrev concat : String → String → String
concat a b = String.◌++◌ a b

-- Each failure closes what was opened before it.
abbrev confirmed : Client → String → Broker → Result Error Publisher × Broker
confirmed c exchange b = elim c.confirm [
  | some e ↦ (err (wrap "enable publisher confirms" e), without_connection (without_channel b))
  | none ↦ (ok (record { exchange = exchange }), b)
]

abbrev declared : Client → String → Broker → Result Error Publisher × Broker
declared c exchange b = elim c.declare [
  | some e ↦ (
    err (wrap (concat "declare exchange " (c.quote exchange)) e),
    without_connection (without_channel b),
  )
  | none ↦ confirmed c exchange b
]

abbrev connected : Client → String → Broker → Result Error Publisher × Broker
connected c exchange b = elim c.open_channel [
  | some e ↦ (err (wrap "rabbitmq channel" e), without_connection b)
  | none ↦ declared c exchange (with_channel b)
]

unfoldable pub new_publisher : Client → String → Broker → Result Error Publisher × Broker
new_publisher c exchange b = elim c.dial [
  | some e ↦ (err (wrap "rabbitmq dial" e), b)
  | none ↦ connected c exchange (with_connection b)
]

abbrev error_list : Option Error → List Error
error_list none = []
error_list (some e) = e ∷ []

-- `Close` of a publisher that NewPublisher made: the errors that `errors.Join` joins.
unfoldable pub close : Client → Broker → List Error × Broker
close c b = (
  error_list c.close_channel ++ error_list c.close_connection,
  without_connection (without_channel b),
)

-- The routing key is the event's type. A failure is logged and returned.
unfoldable pub publish : Client → Publisher → Event → Option Error
publish c p event = elim (c.marshal event) [ err e ↦ some e | ok body ↦ c.publish event.kind body ]

-- The publisher of a process without events.
unfoldable pub discard : Event → Option Error
discard event = none

-- A publisher that could not be made leaves nothing open; one that was made holds one connection and one channel, and closing it gives both back.
pub new_publisher-close :
    (c : Client) (exchange : String) (b : Broker)
    → ((e : Error) → (new_publisher c exchange b).0 ≡ err e → (new_publisher c exchange b).1 ≡ b)
      × ((p : Publisher)
          → (new_publisher c exchange b).0 ≡ ok p
          → ((new_publisher c exchange b).1 ≡ with_channel (with_connection b))
            × ((close c (new_publisher c exchange b).1).1 ≡ b))
unfolding new_publisher close
new_publisher-close c exchange b = (λ e h. ground arith, λ p h. ground arith)
