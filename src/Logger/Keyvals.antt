-- ===== src/Logger/Keyvals.antt =====
-- How the loggers print values: package fmt is a parameter.
use opendevops_codo_golang_s.Common.{Bytes, List, Bool, false, ◌∷◌, not, []}

-- V is Go's interface{}: the verbs %s and %v, and how a string is one.
pub record Fmt (V : Type 0) : Type 0 where
  pub verb_s : V → Bytes
  pub verb_v : V → Bytes
  pub of_text : Bytes → V

-- len(keyvals) & 1
abbrev pub is_odd : {V : Type 0} → List V → Bool
is_odd [] = false
is_odd (k ∷ kvs) = not (is_odd kvs)
