-- ===== src/Itn/Russian.antt =====
-- internal/postproc/itn/ru.go: the Russian rules.
--
-- An index is read by get_elem?, whose `none` is an index out of range; the guards before it exclude
-- that.
pub mod Tables
pub mod Rules
