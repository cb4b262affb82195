-- ===== src/Scanner.antt =====
-- bufio.Scanner, reduced to what the code sees of it: the tokens that are still to come, and whether
-- reading ends by an error. After the last token Scan returns false and Bytes is empty.
use livegrep.Prelude.{Bool, List, [], ◌∷◌, Text}

pub record Scanner : Type 0 where
  pub tokens : List Text
  pub failed : Bool

-- Scan, then Bytes
abbrev pub next_token : List Text → Text
next_token [] = []
next_token (t ∷ ts) = t

abbrev pub rest_tokens : List Text → List Text
rest_tokens [] = []
rest_tokens (t ∷ ts) = ts
