-- ===== src/IoManager/Waits.antt =====
-- East/src/IOManager.cc: what a successful `addEvent` leaves in the context of the descriptor is what a later
-- `cancelEvent` schedules.
use east.Common.{List}
use east.IoManager.{IoManager}
use east.IoManager.Changes.{Changes}
