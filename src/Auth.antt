-- ===== src/Auth.antt =====
-- internal/auth: the limits of requests and the handlers of logins and decks. The list of reports
-- and their replay are in Reports.
pub mod Limit
pub mod Login
pub mod Connections
pub mod Tokens
