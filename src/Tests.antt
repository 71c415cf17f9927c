-- ===== src/Tests.antt =====
-- Runs of the model at concrete inputs.
mod Codec
mod Disk
mod Vaults
mod StoreRuns
mod FormatRuns
mod ItemRuns
mod SweepRuns
mod FrameRuns
mod LabelRuns
mod PathRuns
mod AliasRuns
mod ClientRuns
mod SessionRuns
mod PinRuns
mod SearchRuns
