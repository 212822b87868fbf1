-- ===== src/Lan/Heartbeat/Alarm.antt =====
-- What an accepted call for help leaves behind.
use quake_mesh.Base.{nat_eq}
use quake_mesh.Base.Text.{Text, text_eq}
