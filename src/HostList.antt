-- ===== src/HostList.antt =====
-- internal/hostlist: the flat allow and deny lists. The children hold the patterns and their parser, the
-- matcher, the subsumption test and the order of list files.
pub mod Parse
pub mod Match
pub mod Subsumes
pub mod Sort
