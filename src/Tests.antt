-- ===== src/Tests.antt =====
-- Runs of the definitions on small inputs, and each theorem applied to one.
mod Pacing
mod Recovery
mod Controllers
mod Losses
mod Hystart
mod Cubic
mod Memory
mod Service
mod Bbr
