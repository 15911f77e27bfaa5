-- ===== src/Links/Tests.antt =====
-- The theorems on the lists of src/include/list.h on two small rings.
use dthreads.Base.{◌+◌, ◌≤◌, refl, List, [], ◌∷◌, arith, count}
use dthreads.Base.Maps.{update}
use dthreads.Links.{Ptr, Links}
use dthreads.Links.Chain.{IsRing}

-- The rings 1, 2, 3 and 4, 5.
abbrev links : Links
links = record {
  next = update (update (update (update (update (λ _. 0) 1 2) 2 3) 3 1) 4 5) 5 4;
  prev = update (update (update (update (update (λ _. 0) 2 1) 3 2) 1 3) 5 4) 4 5;
}

abbrev three : List Ptr
three = 1 ∷ 2 ∷ 3 ∷ []

abbrev pair : List Ptr
pair = 4 ∷ 5 ∷ []

three-IsRing : IsRing links three
three-IsRing = record {
  linked = (refl, refl, (refl, refl, (refl, refl)));
  distinct = λ a. ground arith;
  solid = refl;
}

pair-IsRing : IsRing links pair
pair-IsRing = record {
  linked = (refl, refl, (refl, refl));
  distinct = λ a. ground arith;
  solid = refl;
}

apart : (a : Ptr) → count a three + count a pair ≤ 1
apart a = ground arith
