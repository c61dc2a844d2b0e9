-- ===== src/Tests.antt =====
-- Each theorem of the list of results at concrete values that meet its hypotheses.
mod Samples
mod Lists
mod Rules
mod Holds
mod Traffic
mod Families
mod Rows
mod Codec
mod Edits
mod Advice
mod Redaction
