-- ===== src/Examples.antt =====
-- Runs of the components at small inputs.
mod Data
mod Worker
mod Api
mod Stores
mod Wire
mod Server
mod Redis
mod Leases
mod Codec
mod Queue
mod Bucket
mod Middleware
mod Exposition
mod Pdf
mod Startup
mod Pipeline
mod Loadtest
