-- ===== src/Recurrence.antt =====
-- modules/preventive-maintenance/pm.recurrence.ts: the days on which maintenance is due.
pub mod Dates
pub mod Schedule
pub mod Calendar
pub mod Tests
