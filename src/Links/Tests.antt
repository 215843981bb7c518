-- ===== src/Links/Tests.antt =====
-- Runs of common/list.h on three elements, and its theorem at them.
use rastapopoulos.Base.{[], arith, endless, fail, false, ok, refl, true, ◌∷◌, ◌≡◌}
use rastapopoulos.Links.{
  Links, foreach_from, list_append, list_empty, list_foreach, list_init, list_remove, move_head,
  move_tail, put, unlink_next, unlink_prev,
}
use rastapopoulos.Links.Chain.{IsList}
use rastapopoulos.Links.Remove.{macros-IsList}
use rastapopoulos.Scheduler.{contains, is_empty, push, remove}

abbrev no_links : Links
no_links = record { head = 0; tail = 0; next = λ x. 0; prev = λ x. 0 }

abbrev three : Links
three = list_append (list_append (list_append no_links 7) 5) 9

list_runs :
    (list_foreach 4 three ≡ ok (7 ∷ 5 ∷ 9 ∷ []))
    × (list_foreach 3 (list_remove three 5) ≡ ok (7 ∷ 9 ∷ []))
    × (list_foreach 3 (list_append (list_remove three 7) 7) ≡ fail endless)
    × (list_foreach 4 (list_append (list_remove three 7) 7) ≡ ok (5 ∷ 9 ∷ 7 ∷ []))
    × (list_empty (list_init three) ≡ true)
unfolding list_foreach foreach_from list_append list_remove list_empty list_init unlink_next
    unlink_prev move_head move_tail put
list_runs = (refl, refl, refl, refl, refl)

three-IsList : IsList three (7 ∷ 5 ∷ 9 ∷ [])
unfolding list_append list_empty put
three-IsList = record {
  starts = refl;
  linked = (omega arith, refl, refl, (omega arith, refl, refl, (omega arith, refl, refl, refl)));
  unique = ((omega arith, (omega arith, tt)), ((omega arith, tt), (tt, tt)));
}

macros-IsList_example :
    (contains (7 ∷ 5 ∷ 9 ∷ []) 5 ≡ false
      → three.next 5 ≡ 0
      → three.prev 5 ≡ 0
      → IsList (list_append three 5) (push (7 ∷ 5 ∷ 9 ∷ []) 5))
    × (contains (7 ∷ 5 ∷ 9 ∷ []) 5 ≡ true
        → IsList (list_remove three 5) (remove (7 ∷ 5 ∷ 9 ∷ []) 5)
          × ((list_remove three 5).next 5 ≡ 0)
          × ((list_remove three 5).prev 5 ≡ 0))
    × (list_empty three ≡ is_empty (7 ∷ 5 ∷ 9 ∷ []))
    × (list_foreach 4 three ≡ ok (7 ∷ 5 ∷ 9 ∷ []))
macros-IsList_example = macros-IsList three 5 (7 ∷ 5 ∷ 9 ∷ []) three-IsList (omega arith)
