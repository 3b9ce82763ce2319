-- ===== src/Tests.antt =====
-- Runs of the model at concrete inputs, with concrete functions for CommonLib.
mod Instances
mod Machine
mod Threads
mod Ending
mod Mutexes
mod Timers
mod Tables
mod Regions
mod Strokes
mod Keys
mod Screens
mod Lives
mod Messages
mod Memory
mod Frames
mod Processes
