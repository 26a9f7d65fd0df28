-- ===== src/Ui/Tabs.antt =====
-- A component whose only state is the text that names its tab: it is opened on one tab, and its
-- buttons choose from a list.
use cloud_weave.Prelude.{
  ℕ, zero, suc, String, some, List, [], ◌∷◌, get_elem?, All, ◌≡◌, subst, ap, get_or,
}

-- `setTab(id)`
abbrev pub choose : String → String → String
choose id tab = id

-- The tabs that clicks reach.
pub data Reachable (start : String) (offered : List String) : String → Type 0 where
  open_page : Reachable start offered start
  click :
      {tab : String} (i : ℕ) (id : String)
      → Reachable start offered tab
      → get_elem? offered i ≡ some id
      → Reachable start offered (choose id tab)

pub get_elem?-All :
    (P : String → Type 0) (xs : List String) (i : ℕ) (x : String)
    → All P xs
    → get_elem? xs i ≡ some x
    → P x
get_elem?-All P [] i x h e = let bad : ⊥ = cc in elim bad [ ]
get_elem?-All P (y ∷ xs) zero x h e = subst P (ap (λ o. get_or o y) e) h.0
get_elem?-All P (y ∷ xs) (suc i) x h e = get_elem?-All P xs i x h.1 e

-- What holds for the tab shown first and for every tab offered holds for every tab reached.
pub Reachable-All :
    (P : String → Type 0) (start : String) (offered : List String) (tab : String)
    → P start
    → All P offered
    → Reachable start offered tab
    → P tab
Reachable-All P start offered _ first h open_page = first
Reachable-All P start offered _ first h (click i id r e) = get_elem?-All P offered i id h e
