-- ===== src/Auth.antt =====
-- internal/auth: user names and the store of users, invitations.
pub mod Names
pub mod Users
pub mod Invites
