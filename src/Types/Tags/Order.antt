-- ===== src/Types/Tags/Order.antt =====
-- Ascending lists of strings.
use tephra.Prelude.{◌≡◌, true, false, List, [], ◌∷◌, All, arith, refl}
use tephra.Prelude.Str.{Str, str_lt, str_lt_trans, str_lt→ne, str_eq_comm, mem}
use tephra.Types.Tags.{IsAscending}

-- Every string of `us` is above `t`.
abbrev pub Above : Str → List Str → Type 0
Above t us = All (λ u. str_lt t u ≡ true) us

pub Above-trans : (s t : Str) (us : List Str) → str_lt s t ≡ true → Above t us → Above s us
Above-trans s t [] h a = tt
Above-trans s t (u ∷ us) h a = (str_lt_trans s t u h a.0, Above-trans s t us h a.1)

pub IsAscending-tail : (t : Str) (us : List Str) → IsAscending (t ∷ us) → IsAscending us
IsAscending-tail t [] h = tt
IsAscending-tail t (u ∷ us) h = h.1

-- The head of an ascending list is below all the others.
pub IsAscending-Above : (t : Str) (us : List Str) → IsAscending (t ∷ us) → Above t us
IsAscending-Above t [] h = tt
IsAscending-Above t (u ∷ us) h = (h.0, Above-trans t u us h.0 (IsAscending-Above u us h.1))

-- What is below or at the head does not occur further on.
pub mem-Above : (s : Str) (us : List Str) → Above s us → mem s us ≡ false
mem-Above s [] h = refl
mem-Above s (u ∷ us) h = ground (arith, str_lt→ne s u, str_eq_comm s u, mem-Above s us h.1)
