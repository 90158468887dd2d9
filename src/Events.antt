-- ===== src/Events.antt =====
-- events/: the tables of event sources, their registration with the kernel, the wait for events and
-- their dispatch to the callbacks, in the build for Linux with signalfd and timerfd.
pub mod Sources
pub mod Registry
pub mod Dispatch
pub mod Wait
pub mod Signals
pub mod Timer
mod Tests
