-- ===== src/Tests.antt =====
-- Runs of the model at fixed inputs, and the theorems at inputs that meet their hypotheses.
mod Provisioning
mod Access
mod Requests
mod Smoke
mod Session
mod Pool
mod Shell
mod LoginForm
mod History
mod Isolation
mod Modules
mod Api
mod System
