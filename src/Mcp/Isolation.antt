-- ===== src/Mcp/Isolation.antt =====
-- What the tools of src/mnema/mcp/server.py let a user see and change of other users' records.
use memory_agent.T1
use memory_agent.Mcp.{RecordView, view_record}
use memory_agent.Env.{Env}
use memory_agent.Schema.{MemoryRecord}
use memory_agent.Text.{Text, text_eq}
use memory_agent.Floats.{Floats}
use memory_agent.World.{World}
use memory_agent.Recall.Isolation.{IsOwn}
use memory_agent.Prelude.{◌≡◌}

module _ {F : Type 0} (user : Text) where
  -- A view of a live record of the user.
  abbrev pub IsOwnView : RecordView F → Type 0
  IsOwnView v = (r : MemoryRecord F) × IsOwn user r × (v ≡ view_record r)
