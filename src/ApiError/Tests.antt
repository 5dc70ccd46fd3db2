-- ===== src/ApiError/Tests.antt =====
-- Runs of the error replies of internal/server/server.go.
