-- ===== src/Links.antt =====
-- common/list.h: lists whose links are fields of their elements. An element is its address, a
-- number above 0, and 0 is NULL; the fields `next` and `prev` of all of them are functions of the
-- address, so a list that is changed by one name is seen changed by the others.
pub mod Chain
pub mod Append
pub mod Relink
pub mod Remove
mod Tests
use rastapopoulos.Base.{
  Bool, List, Outcome, [], endless, fail, if◌then◌else◌, ok, suc, zero, ℕ, ◌==◌, ◌>>=◌, ◌∷◌,
}

pub record Links : Type 0 where
  pub head : ℕ
  pub tail : ℕ
  pub next : ℕ → ℕ
  pub prev : ℕ → ℕ

unfoldable pub put : (ℕ → ℕ) → ℕ → ℕ → ℕ → ℕ
put field a v x = if x == a then v else field x

unfoldable pub list_init : Links → Links
list_init l = record l { head = 0; tail = 0 }

unfoldable pub list_empty : Links → Bool
list_empty l = l.head == 0

-- An element that is put into an empty list keeps its links.
unfoldable pub list_append : Links → ℕ → Links
list_append l e =
    if list_empty l
    then record l { head = e; tail = e }
    else record l { next = put (put l.next l.tail e) e 0; prev = put l.prev e l.tail; tail = e }

-- The steps of `list_remove`: the element before, the one behind, the head and the tail.
unfoldable pub unlink_next : Links → ℕ → Links
unlink_next l e = if l.prev e == 0 then l else record l { next = put l.next (l.prev e) (l.next e) }

unfoldable pub unlink_prev : Links → ℕ → Links
unlink_prev l e = if l.next e == 0 then l else record l { prev = put l.prev (l.next e) (l.prev e) }

unfoldable pub move_head : Links → ℕ → Links
move_head l e = if l.head == e then record l { head = l.next e } else l

unfoldable pub move_tail : Links → ℕ → Links
move_tail l e = if l.tail == e then record l { tail = l.prev e } else l

unfoldable pub list_remove : Links → ℕ → Links
list_remove l e =
    let left = move_tail (move_head (unlink_prev (unlink_next l e) e) e) e in
    record left { prev = put left.prev e 0; next = put left.next e 0 }

-- The elements that `list_foreach` visits from one on, with the next one, which it has read ahead,
-- and the number of rounds left.
unfoldable pub foreach_from : ℕ → Links → ℕ → ℕ → Outcome (List ℕ)
foreach_from zero l it ahead = fail endless
foreach_from (suc rounds) l it ahead =
    let rest = foreach_from rounds l ahead (if ahead == 0 then 0 else l.next ahead) >>= λ later.
    ok (it ∷ later) in
    if it == 0 then ok [] else rest

unfoldable pub list_foreach : ℕ → Links → Outcome (List ℕ)
list_foreach rounds l = foreach_from rounds l l.head (if l.head == 0 then 0 else l.next l.head)
