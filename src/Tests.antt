-- ===== src/Tests.antt =====
-- The theorems at concrete inputs, and runs of the model.
mod Objects
mod Documents
mod Texts
mod Jsons
mod Rows
mod Scripts
mod Scopes
mod Indexes
mod Programs
mod Numbers
mod Slots
