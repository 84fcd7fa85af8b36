-- ===== src/LogLists.antt =====
-- loglists/filter.go, customTestLogs.go and logNames.go: the log lists that the submitter chooses
-- from. The lists of package ctloglists, SelectByStatus and the searches by URL are parameters; a
-- log list is the list of its operators.
pub mod Filter
pub mod Intersect
pub mod CustomTestLogs
