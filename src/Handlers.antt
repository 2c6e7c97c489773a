-- ===== src/Handlers.antt =====
-- src/handlers/: one function per signed command, and the paths on which a command comes in.
pub mod Params
pub mod Containers
pub mod Nftables
pub mod Nginx
pub mod Wireguard
pub mod System
