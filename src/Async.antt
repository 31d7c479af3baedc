-- ===== src/Async.antt =====
-- async_logging.h: the buffers of the asynchronous log, the producers' side, the consumer's loop.
pub mod Buffer
pub mod Logger
pub mod Reach
pub mod Invariant
pub mod Producer
pub mod Large
pub mod Consumer
pub mod Writer
pub mod Order
pub mod Manager
pub mod Sink
pub mod Drain
mod Tests
