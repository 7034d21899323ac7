-- ===== src/Examples.antt =====
-- Small inputs on which the theorems are applied.
mod Admitting
mod Waits
mod Choosing
mod Registering
mod Closing
mod Evicting
mod Indexing
mod Parsing
mod Cpus
mod Summaries
mod Arithmetics
mod Counting
mod Projecting
