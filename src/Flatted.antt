-- ===== src/Flatted.antt =====
-- internal/flatted/flatted.go, in child modules.
pub mod Decimal
pub mod Value
pub mod Stringify
pub mod Parse
pub mod Seen
pub mod Termination
pub mod Table
pub mod Flattening
pub mod Entries
pub mod Progress
pub mod Rebuild
pub mod Reconstruction
pub mod RoundTrip
mod Examples
