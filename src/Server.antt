-- ===== src/Server.antt =====
-- cmd/relay-core/server.go: the process around the relay. Mux has the patterns that are registered
-- and how `http.ServeMux` picks one, Handler what is answered, and Main the start of the process.
pub mod Mux
pub mod Listed
pub mod Handler
pub mod Reach
pub mod Dialled
pub mod Attested
pub mod Main
pub mod Launch
