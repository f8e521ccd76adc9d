-- ===== src/Message.antt =====
-- pkg/message: the wire format, the immediate sender and the aggregator.
pub mod Bytes
pub mod Wire
pub mod Encoding
pub mod RoundTrip
pub mod Transport
pub mod Immediate
pub mod Aggregator
pub mod Overrun
pub mod Parse
