-- ===== src/Common/Database.antt =====
-- What becomes of a commit of a transaction.
pub data Commit : Type 0 where
  committed rolled_back : Commit
  -- the transaction is kept, and the caller sees an error
  reply_lost : Commit
