-- ===== src/Server/Incoming/Service.antt =====
-- The whole loop of `incoming` of src/server.rs: the bound on the requests, and the closing of the handler.
use dmeng.Server.Parts.{Parts}
use dmeng.Server.Setup.{Server}
