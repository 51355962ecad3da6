-- ===== src/Tests/Cover.antt =====
-- The theorem of probe covers, on overlapping, adjacent and separate runs.
use onpair.Common.{[], ◌∷◌, List}
use onpair.Core.Types.{TokenRange, new}

abbrev runs : List TokenRange
runs = new 15 30 ∷ new 7 7 ∷ new 10 20 ∷ new 31 33 ∷ new 40 40 ∷ []
