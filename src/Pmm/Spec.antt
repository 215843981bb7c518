-- ===== src/Pmm/Spec.antt =====
-- What the regions stand for: for each page frame whether it is memory, and if so, whether it is
-- reserved.
use rastapopoulos.Base.{Bool, List, Option, [], if◌then◌else◌, none, some, ℕ, ◌==◌, ◌∷◌}
use rastapopoulos.Bitset.Invariant.{bit_at}
use rastapopoulos.Pmm.{Region, in_region, index_of}

abbrev pub Frames : Type 0
Frames = ℕ → Option Bool

abbrev pub update : Frames → ℕ → Bool → Frames
update f page value q = if q == page then some value else f q

-- A page belongs to the first region that holds it.
abbrev pub status : List Region → Frames
status [] page = none
status (r ∷ rs) page =
    if in_region r page then some (bit_at r.bitmap (index_of r page) == 1) else status rs page
