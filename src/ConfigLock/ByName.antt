-- ===== src/ConfigLock/ByName.antt =====
-- The map from the names of a baseline's services.
use launch_pad.Prelude.{
  String, ◌||◌, List, [], ◌∷◌, ◌≡◌, refl, ◌∙◌, arith, Dict, put, keys, contains, str_eq, any, All,
  contains-keys-put,
}
use launch_pad.Prelude.Entries.{AllEntries, AllEntries-put}
use launch_pad.ConfigLock.{BaselineService, by_name_from, by_name}

contains-by_name_from :
    (n : String) (ss : List BaselineService) (m : Dict BaselineService)
    → contains n (keys (by_name_from m ss)) ≡ (contains n (keys m) || any (λ s. str_eq s.name n) ss)
unfolding by_name_from
contains-by_name_from n [] m = ground arith
contains-by_name_from n (s ∷ ss) m =
    contains-by_name_from n ss (put s.name s m) ∙ ground (arith, contains-keys-put s.name n s m)

pub contains-by_name :
    (n : String) (ss : List BaselineService)
    → contains n (keys (by_name ss)) ≡ any (λ s. str_eq s.name n) ss
unfolding by_name
contains-by_name n ss = contains-by_name_from n ss []

module _ (P : BaselineService → Type 0) where
  abbrev pub IsNamed : String → BaselineService → Type 0
  IsNamed k s = (k ≡ s.name) × P s

  by_name_from-IsNamed :
      (ss : List BaselineService) (m : Dict BaselineService)
      → All P ss
      → AllEntries IsNamed m
      → AllEntries IsNamed (by_name_from m ss)
  unfolding by_name_from
  by_name_from-IsNamed [] m h k = k
  by_name_from-IsNamed (s ∷ ss) m (p, h) k =
      by_name_from-IsNamed ss (put s.name s m) h (AllEntries-put IsNamed s.name s m (refl, p) k)

  pub by_name-IsNamed : (ss : List BaselineService) → All P ss → AllEntries IsNamed (by_name ss)
  unfolding by_name
  by_name-IsNamed ss h = by_name_from-IsNamed ss [] h tt
