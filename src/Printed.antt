-- ===== src/Printed.antt =====
-- What `cout <<` of iostream_wrapper.h is given by the disk code: a text or a number.
use text_os.Common.{ℕ, List}

pub data Shown : Type 0 where
  text : List ℕ → Shown
  number : ℕ → Shown
