-- ===== src/Router.antt =====
-- CrazyRouters.hpp: the two routers that connect the platform's side of a gateway and the exchange's.
pub mod PubSub
pub mod Requests
pub mod EndToEnd
mod Tests
