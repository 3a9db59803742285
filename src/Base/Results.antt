-- ===== src/Base/Results.antt =====
-- What a fallible function returns besides its new state.
pub data Result (E A : Type 0) : Type 0 where
  ok : A → Result E A
  failed : E → Result E A
