-- ===== src/Schedule.antt =====
-- internal/schedule/schedule.go: a rate profile and the arrival times that it gives. Durations are
-- nanoseconds; a rate is a float64.
pub mod Profile
pub mod Search
pub mod Arrivals
pub mod Order
pub mod Accepts
mod Examples
