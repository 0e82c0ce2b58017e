-- ===== src/Command.antt =====
-- commands/: the command language of the control socket.
pub mod Tokens
pub mod Parser
