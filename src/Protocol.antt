-- ===== src/Protocol.antt =====
-- pkg/protocol: the client of Protocol A.
pub mod Server
pub mod Client
pub mod Errors
pub mod Input
pub mod Response
pub mod Lists
pub mod Handlers
pub mod Receive
pub mod Channels
pub mod Requests
pub mod Connect
