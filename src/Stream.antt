-- ===== src/Stream.antt =====
-- interception/stream.h: the messages that the guest and the host exchange.
pub mod Items
pub mod Serializer
pub mod Deserializer
pub mod Response
pub mod RoundTrip
