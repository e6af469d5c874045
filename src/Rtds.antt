-- ===== src/Rtds.antt =====
-- internal/rtds/client.go: the RTDS server and the client that the reconciler pushes through.
pub mod Server
pub mod Client
