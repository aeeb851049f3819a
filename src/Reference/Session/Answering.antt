-- ===== src/Reference/Session/Answering.antt =====
-- `ping_cb`: which pings are answered.
use libdsvdc.Base.{Bool, Bytes, bytes_eq, take}
use mathlib.Core.List.{map}
use libdsvdc.Reference.Dsuid.{padded}
use libdsvdc.Reference.Site.{Site}

-- The first 34 characters agree with those of the other dSUID in upper case.
abbrev pub names : Site → Bytes → Bytes → Bool
names site dsuid ref = bytes_eq (take 34 dsuid) (map site.toupper (padded 34 ref))
