-- ===== src/Links/Remove.antt =====
-- `list_remove` takes an element out of the list.
use native.Mathlib.Decide.{ℕ_discrete}
use rastapopoulos.Base.{
  List, [], arith, false, if◌then◌else◌, length, not, ok, refl, suc, sym, true, ℕ, ◌&&◌, ◌==◌, ◌∙◌,
  ◌∷◌, ◌≡◌, ◌≢◌,
}
use rastapopoulos.Links.{
  Links, list_append, list_empty, list_foreach, list_remove, move_head, move_tail, put, unlink_next,
  unlink_prev,
}
use rastapopoulos.Links.Append.{list_append-IsList, list_foreach_lem}
use rastapopoulos.Links.Chain.{
  Absent, IsList, Linked, Neighbours, Unique, contains-Absent, first, linked-Neighbours,
}
use rastapopoulos.Links.Relink.{first_removed, removed}
use rastapopoulos.Scheduler.{contains, is_empty, push, remove}

Absent-remove : (xs : List ℕ) (e x : ℕ) → Absent x xs → Absent x (remove xs e)
unfolding remove
Absent-remove [] e x absent = tt
Absent-remove (y ∷ xs) e x (other, absent) = elim (ℕ_discrete y e) [
  | yes same ↦ let test : (y == e) ≡ true = ground arith in rw test absent
  | no apart ↦
      let test : (y == e) ≡ false = ground arith in rw test (other, Absent-remove xs e x absent)
]

Unique-remove : (xs : List ℕ) (e : ℕ) → Unique xs → Unique (remove xs e)
unfolding remove
Unique-remove [] e unique = tt
Unique-remove (y ∷ xs) e (absent, unique) = elim (ℕ_discrete y e) [
  | yes same ↦ let test : (y == e) ≡ true = ground arith in rw test unique
  | no apart ↦
      let test : (y == e) ≡ false = ground arith in
      rw test (Absent-remove xs e y absent, Unique-remove xs e unique)
]

-- What is in the fields after `list_remove` of an element that is no neighbour of itself.
module _ (l : Links) (e : ℕ) (p_apart : l.prev e ≢ e) (f_apart : l.next e ≢ e) where
  next_removed :
      (x : ℕ)
      → (list_remove l e).next x ≡ (
          if x == e then 0 else if not (l.prev e == 0) && x == l.prev e then l.next e else l.next x)
  unfolding list_remove unlink_next unlink_prev move_head move_tail put
  next_removed x = ground arith

  prev_removed :
      (x : ℕ)
      → (list_remove l e).prev x ≡ (
          if x == e then 0 else if not (l.next e == 0) && x == l.next e then l.prev e else l.prev x)
  unfolding list_remove unlink_next unlink_prev move_head move_tail put
  prev_removed x = ground arith

  head_removed : (list_remove l e).head ≡ (if l.head == e then l.next e else l.head)
  unfolding list_remove unlink_next unlink_prev move_head move_tail put
  head_removed = ground arith

  tail_removed : (list_remove l e).tail ≡ (if l.tail == e then l.prev e else l.tail)
  unfolding list_remove unlink_next unlink_prev move_head move_tail put
  tail_removed = ground arith

  next_others : (x : ℕ) → x ≢ e → x ≢ l.prev e → (list_remove l e).next x ≡ l.next x
  next_others x a b = ground (arith, next_removed x)

  prev_others : (x : ℕ) → x ≢ e → x ≢ l.next e → (list_remove l e).prev x ≡ l.prev x
  prev_others x a b = ground (arith, prev_removed x)

  next_before : l.prev e ≢ 0 → (list_remove l e).next (l.prev e) ≡ l.next e
  next_before some_p = ground (arith, next_removed (l.prev e))

  prev_behind : l.next e ≢ 0 → (list_remove l e).prev (l.next e) ≡ l.prev e
  prev_behind some_f = ground (arith, prev_removed (l.next e))

  tail_moved : l.tail ≡ e → (list_remove l e).tail ≡ l.prev e
  tail_moved h = ground (arith, tail_removed)

  tail_kept : l.tail ≢ e → (list_remove l e).tail ≡ l.tail
  tail_kept h = ground (arith, tail_removed)

  head_moved : l.head ≡ e → (list_remove l e).head ≡ l.next e
  head_moved h = ground (arith, head_removed)

  head_kept : l.head ≢ e → (list_remove l e).head ≡ l.head
  head_kept h = ground (arith, head_removed)

module _ (l : Links) (e : ℕ) (w : Neighbours l.next l.prev e) (some_e : e ≢ 0) where
  relinked :
      (xs : List ℕ)
      → Linked l.next l.prev l.tail 0 xs
      → Unique xs
      → Absent 0 xs
      → Linked (list_remove l e).next (list_remove l e).prev (list_remove l e).tail 0 (remove xs e)
  relinked xs links unique absent =
      let a = w.before_apart in
      let b = w.behind_apart in
      removed l.next l.prev (list_remove l e).next (list_remove l e).prev l.tail
        (list_remove l e).tail e (l.prev e) (l.next e) some_e refl refl a b w.before_back
        w.behind_back (next_others l e a b) (prev_others l e a b) (next_before l e a b)
        (prev_behind l e a b) (tail_moved l e a b) (tail_kept l e a b) 0 xs links unique
        (λ z. some_e (sym z)) absent

  first_relinked :
      (xs : List ℕ)
      → l.head ≡ first xs
      → Linked l.next l.prev l.tail 0 xs
      → (list_remove l e).head ≡ first (remove xs e)
  first_relinked xs starts links =
      let a = w.before_apart in
      let b = w.behind_apart in
      let (moved, kept) =
        first_removed l.next l.prev (list_remove l e).next (list_remove l e).prev l.tail
          (list_remove l e).tail e (l.prev e) (l.next e) some_e refl refl a b w.before_back
          w.behind_back (next_others l e a b) (prev_others l e a b) (next_before l e a b)
          (prev_behind l e a b) (tail_moved l e a b) (tail_kept l e a b) 0 xs links in
      elim (ℕ_discrete l.head e) [
        | yes h ↦ head_moved l e a b h ∙ sym (moved (sym starts ∙ h))
        | no h ↦ head_kept l e a b h ∙ starts ∙ sym (kept (λ k. h (starts ∙ k)))
      ]

zero-Absent :
    (next prev : ℕ → ℕ) (tail p : ℕ) (xs : List ℕ) → Linked next prev tail p xs → Absent 0 xs
zero-Absent next prev tail p [] links = tt
zero-Absent next prev tail p (x ∷ xs) links = (links.0, zero-Absent next prev tail x xs links.3)

list_remove-IsList :
    (l : Links) (e : ℕ) (xs : List ℕ)
    → IsList l xs
    → e ≢ 0
    → contains xs e ≡ true
    → IsList (list_remove l e) (remove xs e)
list_remove-IsList l e xs v some_e h =
    let w =
      linked-Neighbours l.next l.prev l.tail 0 e xs v.linked v.unique (λ z. some_e (sym z))
        (λ z. absurd (z refl)) h in
    record {
      starts = first_relinked l e w some_e xs v.starts v.linked;
      linked =
          relinked l e w some_e xs v.linked v.unique
            (zero-Absent l.next l.prev l.tail 0 xs v.linked);
      unique = Unique-remove xs e v.unique;
    }

links_cleared :
    (l : Links) (e : ℕ) → ((list_remove l e).next e ≡ 0) × ((list_remove l e).prev e ≡ 0)
unfolding list_remove put
links_cleared l e = (ground arith, ground arith)

list_empty_lem : (l : Links) (xs : List ℕ) → IsList l xs → list_empty l ≡ is_empty xs
unfolding list_empty
list_empty_lem l [] v = let starts = v.starts in ground arith
list_empty_lem l (x ∷ xs) v =
    let starts = v.starts in let some_x = v.linked.0 in ground (arith, starts, some_x)

-- When the links are those of the list `xs`. `list_append` of an element that is not in it and has no
-- links makes them those of `push xs e`, the queue that the scheduler's model has, and `list_remove`
-- of one that is in it those of `remove xs e`, and clears the links of the element, so that it can be
-- appended again. `list_empty` tells whether the list is empty, and `list_foreach` visits its elements
-- in their order and comes to an end.
pub macros-IsList :
    (l : Links) (e : ℕ) (xs : List ℕ)
    → IsList l xs
    → e ≢ 0
    → (contains xs e ≡ false → l.next e ≡ 0 → l.prev e ≡ 0 → IsList (list_append l e) (push xs e))
      × (contains xs e ≡ true
          → IsList (list_remove l e) (remove xs e)
            × ((list_remove l e).next e ≡ 0)
            × ((list_remove l e).prev e ≡ 0))
      × (list_empty l ≡ is_empty xs)
      × (list_foreach (suc (length xs)) l ≡ ok xs)
macros-IsList l e xs v some_e = (
  λ absent no_next no_prev.
      list_append-IsList l e xs v some_e (contains-Absent xs e absent) no_next no_prev,
  λ present.
      (list_remove-IsList l e xs v some_e present, (links_cleared l e).0, (links_cleared l e).1),
  list_empty_lem l xs v,
  list_foreach_lem l xs v,
)
