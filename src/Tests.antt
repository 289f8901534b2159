-- ===== src/Tests.antt =====
-- Runs of the model on concrete inputs, by the part of the firmware that they exercise.
mod Toys
mod Uploads
mod Copies
mod Flushes
mod Frames
mod Memories
mod Provisionings
mod Texts
mod Requests
mod Starts
mod Clocks
mod Connections
