-- ===== src/Tests.antt =====
-- Tests, and each theorem with hypotheses applied at a concrete input.
mod Data
mod Parts
mod Serving
mod Life
mod Tools
mod Starting
mod Loop
mod Queue
mod Echoes
mod Sockets
mod Requests
mod Neighbours
mod Running
mod Arrivals
mod Timings
