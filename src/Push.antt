-- ===== src/Push.antt =====
-- push/websocket.py and push/websocket_client.py: JMAP over a WebSocket.
pub mod Protocol
pub mod Socket
pub mod Subscription
mod Tests
