-- ===== src/Domain/Stamp.antt =====
-- ISO timestamps, as the packages read them: the result of `Date.parse`. Times are in milliseconds
-- since 1970.
use void.Base.{ℕ}

pub data Stamp : Type 0 where
  parsed : ℕ → Stamp
  unparsed : Stamp
