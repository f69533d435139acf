-- ===== src/Policy.antt =====
-- `Policy` of internal/controlplane/client.go, and the test that `GetMatchingPolicy` makes of one.
use aizen_gate.Base.{◌≡◌, ◌↔◌, ◌⊎◌, String, Bool, true, ◌&&◌, ◌||◌, arith, str_eq, eq_iff}
use aizen_gate.Base.Int.{ℤ}

-- Go's `int` is read as an integer: the code compares the two numbers and never adds to them.
pub record Policy : Type 0 where
  pub id : String
  pub path : String
  pub method : String
  pub limit : ℤ
  pub window_sec : ℤ
  pub tier : String

-- `field == "*" || field == actual`
abbrev pub accepts : String → String → Bool
accepts field actual = str_eq field "*" || str_eq field actual

unfoldable pub matches : String → String → String → Policy → Bool
matches path method tier p = accepts p.path path && accepts p.method method && accepts p.tier tier

abbrev Accepts : String → String → Type 0
Accepts field actual = (field ≡ "*") ⊎ (field ≡ actual)

-- Each of the three fields is the wildcard or the request's own value.
pub record Matches (path method tier : String) (p : Policy) : Type 0 where
  pub on_path : Accepts p.path path
  pub on_method : Accepts p.method method
  pub on_tier : Accepts p.tier tier

accepts_iff : (field actual : String) → (accepts field actual ≡ true) ↔ Accepts field actual
accepts_iff field actual = ground (arith, eq_iff field "*", eq_iff field actual)

pub matches_iff :
    (path method tier : String) (p : Policy)
    → (matches path method tier p ≡ true) ↔ Matches path method tier p
unfolding matches
matches_iff path method tier p =
    ground (arith, accepts_iff p.path path, accepts_iff p.method method, accepts_iff p.tier tier)
