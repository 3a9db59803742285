-- ===== src/Socket.antt =====
-- internal/websocket: the clients, what each wants to see, and the broadcast to them.
pub mod Types
pub mod Filters
pub mod Manager
