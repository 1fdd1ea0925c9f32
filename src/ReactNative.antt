-- ===== src/ReactNative.antt =====
-- client/grpc-web-react-native-transport/src/index.ts
pub mod Detach
pub mod Text
pub mod Transport
pub mod Whole
pub mod Exchange
pub mod Tests
