-- ===== src/Configwrite.antt =====
-- internal/configwrite/configwrite.go: the edits of lists.allow, lists.deny and
-- lists.declined_suggestions in the configuration file.
pub mod Yaml
pub mod Edit
pub mod Declined
pub mod Frame
pub mod Outcomes
pub mod OneLine
pub mod Operator
pub mod Generalize
pub mod Blanks
