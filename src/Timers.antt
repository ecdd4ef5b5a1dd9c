-- ===== src/Timers.antt =====
-- svarog/include/svarog/io/steady_timer.hpp and system_timer.hpp: one timer over the timer queue of
-- its context. A timer and its queue are passed along; `H` is the type of handlers. Times are ticks
-- since the earliest time point, durations are not negative, and sums do not overflow (where they
-- would, the source has undefined behaviour).
pub mod Steady
pub mod System
pub mod Waiting
pub mod Rounds
pub mod Firing
