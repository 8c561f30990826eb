-- ===== src/Driver.antt =====
-- The character devices: CelFar is practice/device_driver/cel_far/cel_far.c with its
-- user_program.c, TickTock is 21-1-22/my/ticktock.c.
pub mod CelFar
pub mod TickTock
mod Samples
