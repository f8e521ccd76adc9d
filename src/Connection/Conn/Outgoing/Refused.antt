-- ===== src/Connection/Conn/Outgoing/Refused.antt =====
-- pkg/message/immediate.go over pkg/connection/conn.go: a Send on a connection that is not connected.
use golinker.Api.{Buffer}
use golinker.Buffer.SendPool.Inv.{Inv}
use golinker.Message.Immediate
