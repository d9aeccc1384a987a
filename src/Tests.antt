-- ===== src/Tests.antt =====
-- Runs of the model on small inputs, and each result at an input that meets its conditions.
mod Spaces
mod SleepLocks
mod Files
mod DiskRequests
mod Descriptors
mod Trees
mod UserHeap
mod Locks
mod Strings
mod Pages
mod Pipes
mod Logging
mod Processes
mod Screen
mod UserStrings
mod OpenFiles
mod Buffers
