-- ===== src/Examples.antt =====
-- Tests of the definitions, and each theorem at an input of its own.
mod Winutil
mod FramedIo
mod Permissions
mod Level
mod Cli
mod SshConfig
mod CapJson
mod Cap
mod DenyRead
mod SetupError
mod Messages
mod Elevated
mod Env
mod Macos
mod Seatbelt
mod Allow
mod Logging
mod Setup
mod Flights
mod Identity
