-- ===== src/Client.antt =====
-- client/grpc-web/src/client.ts: the class GrpcClient.
pub mod Types
pub mod Requests
pub mod Callbacks
pub mod Responses
pub mod Session
pub mod Parts
pub mod Keeps
pub mod Protocol
pub mod Silence
pub mod Cancelled
pub mod EndCalls
pub mod Ends
pub mod Passive
pub mod Delivery
pub mod Replay
pub mod Ended
pub mod Endings
pub mod Liveness
pub mod HeaderFrame
pub mod Outcome
pub mod Tests
