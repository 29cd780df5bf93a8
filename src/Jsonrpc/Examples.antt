-- ===== src/Jsonrpc/Examples.antt =====
-- Concrete messages of shared/message.go.
use gate4ai.Prelude.{false, none, some}
use gate4ai.Jsonrpc.{Message, number}

abbrev message : Message
message = record {
  id = some (number 1);
  method = some "ping";
  params = none;
  result = none;
  error = none;
  processed = false;
  session = none;
}
