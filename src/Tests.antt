-- ===== src/Tests.antt =====
-- Runs of the model on concrete requests, and the theorems at concrete inputs.
mod World
mod Runs
mod Sessions
mod Statements
mod Lists
mod Guards
mod Changes
mod Requests
mod Connections
mod Sockets
mod System
mod Tables
mod Json
mod Seeds
mod Received
