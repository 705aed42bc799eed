-- ===== src/App/Logging.antt =====
-- internal/app/server.go, requestLogger: what is told of a request that a handler has replied to.
