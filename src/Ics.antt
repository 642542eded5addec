-- ===== src/Ics.antt =====
-- The calendar plugin (plugins/ics): one module for each of its source files.
pub mod TextUtils
pub mod Chrono
pub mod Event
pub mod Window
pub mod Timezone
pub mod Datetime
pub mod Rrule
pub mod Recurrence
pub mod Override
pub mod Builder
pub mod Pipeline
pub mod Parser
pub mod Cache
pub mod Manager
pub mod HttpSource
pub mod Sample
pub mod SampleCalendar
