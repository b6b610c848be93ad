-- ===== src/Lib.antt =====
-- Verification of the services of golang-microservices-ecommerce: a customer fills a basket, checks
-- it out, and an order comes of it, each step in a service of its own and with a broker in between.
--
-- The parts, their files and the code that they model:
--
--   Prelude (Tests, Lists, Int, Text,  tests on numbers, lists measured by them, signed integers,
--     Results)                         texts and fallible results, shared by all
--   Platform.Decimal                   the operations of github.com/shopspring/decimal, a parameter
--   Platform.Messaging, Basketv1,      internal/platform/messaging: Envelope, Contract, Header,
--     Orderingv2                       NewEnvelope, and the contracts of basketv1 and orderingv2
--   Platform.Rabbitmq                  internal/platform/messaging/rabbitmq: message (rabbitmq.go),
--                                      envelopeFrom, handle, setAside and the loop of Subscribe
--   Platform.Kafka                     internal/platform/messaging/kafka: the message of Publish
--                                      (kafka.go), envelopeFrom and the loop of Subscribe
--   Platform.Pagination                internal/platform/pagination
--   Platform.Inbox                     inbox.Idempotent over InboxStore of internal/ordering/mssql
--   Platform.Backoff                   the backoff of the ordering worker and of the basket's relay
--   Basket.Carts                       internal/basket/carts: ShoppingCart, applyDiscounts
--   Basket.Checkout                    CheckoutBasketHandler.Handle (checkout_basket.go) and the
--                                      statements of internal/basket/postgres
--   Basket.Cache                       CachedRepository of internal/basket/rediscache
--   Basket.Relay                       internal/basket/outbox: Relay.ProcessOnce, over OutboxStore of
--                                      internal/basket/postgres/outbox.go
--   Ordering.Domain                    internal/ordering/domain: Values, Status and the Order aggregate
--   Ordering.Orders.Checkout           CheckoutHandler.orderFrom of internal/ordering/orders/checkout.go
--   Ordering.Orders.Consumer           CheckoutHandler.Handle of the same file
--   Ordering.Orders.Handlers, Views    the command and query handlers of internal/ordering/orders
--                                      (create_order.go and the like) and view.go
--   Ordering.Integration               internal/ordering/integration: Mapper.Map
--   Ordering.Rows                      the rows of the tables and internal/ordering/mssql/scan.go
--   Ordering.Tables                    the tables of internal/ordering/mssql/migrations
--   Ordering.Repository                OrderRepository of internal/ordering/mssql/repository.go and
--                                      outbox.go; its queries are Repository.Reads
--   Ordering.Outbox                    internal/ordering/outbox: Lsn, Reader (reader.go), Stores
--                                      (checkpoint.go, failures.go), Processor (processor.go), Worker
--   Payment.Cards                      internal/payment/cards: the card rules and the handler
--   Gateway.Ratelimit                  internal/gateway/ratelimit.go: FixedWindow
--   Discount                           internal/discount: Server of grpcserver/server.go over
--                                      CouponRepository of sqlite/repository.go
--   Examples                           the theorems at concrete values
--
-- How they interact: Basket.Checkout.prepare reads a basket and announces it in a checkout event;
-- checkout clears the basket and records the announcement in one transaction; Basket.Relay
-- publishes what is recorded. A consumer takes the announcement through Platform.Inbox and makes an
-- order of it with Ordering.Orders.Checkout, which uses Ordering.Domain, and Place of
-- Ordering.Repository stores it; Ordering.Orders.Handlers work on the same tables. The messages that
-- Ordering.Integration makes of an order's events are recorded with it. What Ordering records is read
-- by Ordering.Outbox.Reader from the change table and published by Ordering.Outbox.Processor, which
-- keeps a checkpoint. Between a publisher and a consumer, Platform.Rabbitmq or Platform.Kafka carries
-- an envelope and settles what the consumer reports of it.
--
-- The conventions of the model. A UUID is its 128-bit value and uuid.Nil is 0; what uuid.New and the
-- random source draw is an argument. A text is a native text of valid UTF-8; where it is looked into
-- it is its code points. A time is a number of nanoseconds. An amount of money is of any type with
-- the interface Decimal; laws that a theorem relies on are in DecimalLaws. A map is a function or an
-- association list. Error values are constructors without their texts.
--
-- Failures are data. In Ordering.Outbox and Basket.Relay an environment numbers the calls of a run
-- and decides for each whether the database fails, whether the context is done and what the broker
-- does, which may accept a message and lose the answer. In Ordering.Repository a server decides for
-- each statement whether it is refused, and a commit that reports an error may have gone through. In
-- the other parts a call has an argument that says whether it fails, and for a write or a transaction
-- what becomes of it (Write of Prelude.Results): it goes through, it is lost with an error and changes
-- nothing, or it goes through and its answer is lost, so that the call reports an error.
--
-- The code behind the repository's edge is a parameter: SQL Server's change tables (Reader.Server,
-- whose documented behaviour is NoGap.IsDocumented), the broker, uuid.NewSHA1 and the JSON encoding
-- in Basket.Checkout and Ordering.Integration, the columns and the order of SQL Server
-- (Repository.Server), the
-- reader of kafka-go (Kafka.Reader, whose documented behaviour is Kafka.Committed.IsDocumented), the
-- texts of UUIDs, integers and times in Platform.Rabbitmq and Platform.Kafka (Formats), the client of the
-- Discount service in Basket.Carts, the jitter in Platform.Backoff.
--
-- Bounds and termination: all loops are over lists that are given, by recursion on the list; the
-- endless loops of the worker, the relay and the subscribers are not modelled, only their bodies, so
-- no fuel is needed. Sizes and counts are natural numbers, far below the machine's bounds.
--
-- Not modelled: HTTP, logging, tracing, wiring, migrations, generated gRPC code, the clients of
-- Kafka, RabbitMQ and Redis with their connections, and the Catalog service, which is thin. Requests
-- to one repository run one at a time.
mod Prelude
pub mod Platform
pub mod Ordering
pub mod Payment
pub mod Gateway
pub mod Discount
pub mod Basket
mod Examples
