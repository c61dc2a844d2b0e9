-- ===== src/Server.antt =====
-- internal/server: the decision path of a request, the open-mode window and the refusal response.
pub mod OpenMode
pub mod Gate
pub mod Refusal
pub mod Consult
pub mod OpRows
