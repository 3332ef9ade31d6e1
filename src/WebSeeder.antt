-- ===== src/WebSeeder.antt =====
-- server/services/web_seeder.go: what the HTTP handler does with a request.
--
-- A handler is a list of the calls that it makes on its http.ResponseWriter, in order. `none` is a
-- run-time panic. Log lines are left out.
pub mod Request
pub mod Calls
pub mod Available
pub mod Vault
pub mod Files
pub mod Pages
pub mod Routes
