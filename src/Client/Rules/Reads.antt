-- ===== src/Client/Rules/Reads.antt =====
-- The calls that change nothing in the cluster; an event counts as none.
use kubeopencode.Client.{Env, Call}

abbrev pub Reads : Env → Call → Type 0
Reads env Call.now = Unit
Reads env (Call.get_task k) = Unit
Reads env (Call.get_agent k) = Unit
Reads env (Call.get_template k) = Unit
Reads env (Call.get_pod k) = Unit
Reads env (Call.get_config_map k) = Unit
Reads env Call.get_config = Unit
Reads env (Call.list_tasks ns l) = Unit
Reads env (Call.list_sessions url title) = Unit
Reads env (Call.list_messages url id) = Unit
Reads env (Call.event reason format args) = Unit
Reads env _ = ⊥
