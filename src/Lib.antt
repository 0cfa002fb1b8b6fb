-- ===== src/Lib.antt =====
-- A model of the market-data gateways of this repository: the routers through which the parts of a
-- gateway talk to each other, and the two connections of the Binance gateway to its exchange. Each
-- definition is translated from the C++ source; paths below are from the repository's root.
--
-- Prelude        the conditional, equality of keys, sets and maps as lists. A `std::unordered_map` is an
--                association list and a `std::unordered_set` a list without repetitions; the order in
--                which the code walks an unordered container is not a promise.
-- Router         CrazyRouters.hpp. Router.PubSub is `PubSubDataRouter`: `routing_table` is
--                `m_routingTable`, `reg_id_to_keys` is `m_regIdToKeys`. A callback is a value, and
--                `produce` returns the calls it makes, in order. Router.Requests is
--                `GenericReqRespRouter`: a listener is the list of actions that it takes on a request,
--                and the loop over the requests that wait runs on fuel. Router.EndToEnd is
--                `EndToEndReqRespRouter`.
-- Session        MDGateways/Binance/WebSockets.h, class `session`. Every handler takes the state to a
--                new one and returns what it starts: commands, asynchronous operations, timers.
--                Session.Exchange adds the exchange, which carries out the commands in the order in
--                which they are sent, as the throttler and the strand do.
-- Rest           MDGateways/Binance/RestApi.h and RestApi.cpp, class `BinanceRestClient`: the queue of
--                requests, and the one asynchronous operation that is outstanding (Rest.Exchange).
-- Partition      MDGateways/PlatformComm/PerPartitionSM.h and .cpp: the states of a partition. The engine
--                that runs them is a parameter; the states' own `process` functions are translated.
-- Platform       MDGateways/PlatformComm/PlatformComm.cpp: to which topics the prices of a key go, the
--                messages that change this, the delivery of prices, requests for snapshots, the download of a
--                partition's subscriptions (Platform.Download), rebalances (Platform.Rebalance, with the callback
--                of MiddleWare/Interface.cpp) and the status of the gateway.
-- Binance        MDGateways/Binance/Binance.h and Binance.cpp: the keys of prices and the streams of the
--                exchange, the transformations of prices and snapshots, the gateway's start and outages.
-- Connectivity   MDGateways/Binance/Binance.cpp, `ConnectivityState`: the status of the gateway.
-- Constants      Constants.h: the enumerations whose values are texts, and reading a level of logging and
--                the type of a price.
-- Middleware     MiddleWare/Interface.cpp: messages, requests and responses over Kafka.
--                Middleware.Requests has the handlers, over the book of pending requests;
--                Middleware.Loop the loop that polls records, Middleware.Killing its thread and the one
--                that ends it, step by step, and Middleware.Starting how a component starts and ends.
-- Feed           MDGateways/MDGatewayRouterConfig.h with both ends of its routers: a frame of the exchange
--                on its way to the topics, a subscription and an unsubscription on their way to the session
--                and the exchange.
-- Programs       SDPMock/SDPMock.cpp, DataTumper/DataDumper.cpp and
--                PerformanceTests/BinanceMD/BinanceMDPerformanceTests.cpp; Programs.Gateway is what the
--                gateway starts with, Programs.Exchange and Programs.Download are a partition's request
--                on its way through the middleware to the mock and back.
-- Logging        Logging.h: the files of the log, their rotation, and the levels.
-- Config         ConfigLib/ConfigLib.cpp: the merge of the settings of an application, its group and the
--                system, the checks on them, how the file is read and watched, and what its update does.
--
-- The prices that reach the platform come from the session and the REST client, and go through the
-- routers: a control message on a key makes the gateway subscribe or unsubscribe the stream of the key.
-- Binance.subscribe is such a command of Session, on the stream of a key; Binance.Prices turns a frame of
-- the stream into an update of the key, which Platform.Delivery sends to the topics of Platform.Routing;
-- Binance.Bodies joins the snapshots to the bodies that Rest reads; Binance.Launch uses Connectivity. The
-- messages and requests of the platform come through Middleware, which calls Platform's handlers. Feed and
-- Programs.Download put these components together.
--
-- Parameters: the JSON library (a record of the operations that the code uses), the callbacks, the
-- outcomes of the operating system's and the libraries' calls (as error codes that the events carry).
-- Where an application's records come to another one (Middleware.RoundTrip), Kafka hands each record once
-- to an application that subscribes to its topic, and to no other.
-- Numbers are natural numbers; the counter of messages is not bounded. Sizes and fuel: the loop of
-- `request` takes fuel, where a request weighs more than those its listener sends, fuel above its
-- weight is enough; the text of a number takes fuel for 20 digits, which 64 bits do not exceed; every
-- other loop runs over a list. The number of a log file is an `int`, which stands for itself below 2 ^ 31.
--
-- Not modelled: what is logged, the identifiers' generator, the wrapper types, Kafka (what its clients give
-- is an argument, what is done with them an effect), the construction of threads and I/O contexts,
-- the callbacks that only log, and the integration tests.
pub mod Prelude
pub mod Router
pub mod Session
pub mod Rest
pub mod Partition
pub mod Platform
pub mod Logging
pub mod Feed
pub mod Programs
pub mod Config
pub mod Connectivity
pub mod Constants
pub mod Middleware
pub mod Binance
