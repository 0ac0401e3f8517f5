-- ===== src/Diacritics/Row.antt =====
-- A row of the table: a base, and the letters that are replaced by it.
use cidemis.Base.{Text}

pub record Entry : Type 0 where
  pub base : Text
  pub letters : Text
