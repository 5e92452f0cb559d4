-- ===== src/ReadCost/Examples.antt =====
-- A request of four bytes with arguments of two.
use lumenqraph.Base.Str.{Str}

abbrev plain : Str → Str
plain s = s
