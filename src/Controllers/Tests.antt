-- ===== src/Controllers/Tests.antt =====
-- The theorems about the controllers at a concrete API server.
mod Store
mod Examples
