-- ===== src/Links/Append.antt =====
-- `list_append` puts an element at the end of the list, and `list_foreach` goes along it.
use mathlib.Core.Path.{subst}
use rastapopoulos.Base.{
  List, [], ap, arith, false, if◌then◌else◌, length, ok, refl, suc, sym, true, ℕ, ◌++◌, ◌==◌, ◌∙◌,
  ◌∷◌, ◌≡◌, ◌≢◌,
}
use rastapopoulos.Links.{Links, foreach_from, list_append, list_empty, list_foreach, put}
use rastapopoulos.Links.Chain.{Absent, IsList, Linked, Unique, first}
use rastapopoulos.Scheduler.{push}

last_apart :
    (next prev : ℕ → ℕ) (tail p e : ℕ) (xs : List ℕ)
    → Linked next prev tail p xs
    → Absent e xs
    → p ≢ e
    → tail ≢ e
last_apart next prev tail p e [] links absent apart = λ h. apart (sym links ∙ h)
last_apart next prev tail p e (x ∷ xs) links absent apart =
    last_apart next prev tail x e xs links.3 absent.1 absent.0

appended :
    (next prev : ℕ → ℕ) (tail p e : ℕ) (xs : List ℕ)
    → Linked next prev tail p xs
    → Absent e xs
    → Unique xs
    → e ≢ 0
    → Linked (put (put next tail e) e 0) (put prev e tail) e p (xs ++ (e ∷ []))
unfolding put
appended next prev tail p e [] links absent unique some_e =
    (some_e, ground (arith, links), ground arith, refl)
appended next prev tail p e (x ∷ []) (some_x, before, behind, links) absent unique some_e =
    let apart = absent.0 in
    (
      some_x,
      ground (arith, before),
      ground (arith, links),
      appended next prev tail x e [] links tt tt some_e,
    )
appended next prev tail p e (x ∷ y ∷ xs) (some_x, before, behind, links) absent unique some_e =
    let apart = absent.0 in
    let inner = last_apart next prev tail y x xs links.3 unique.0.1 unique.0.0 in
    (
      some_x,
      ground (arith, before),
      ground (arith, behind, inner),
      appended next prev tail x e (y ∷ xs) links absent.1 unique.1 some_e,
    )

Unique-push : (xs : List ℕ) (e : ℕ) → Unique xs → Absent e xs → Unique (xs ++ (e ∷ []))
Unique-push [] e unique absent = (tt, tt)
Unique-push (x ∷ xs) e (apart, unique) (other, absent) =
    (Absent-push xs e x apart other, Unique-push xs e unique absent)
  where
    Absent-push : (ys : List ℕ) (e x : ℕ) → Absent x ys → x ≢ e → Absent x (ys ++ (e ∷ []))
    Absent-push [] e x apart other = ((λ h. other (sym h)), tt)
    Absent-push (y ∷ ys) e x apart other = (apart.0, Absent-push ys e x apart.1 other)

pub list_append-IsList :
    (l : Links) (e : ℕ) (xs : List ℕ)
    → IsList l xs
    → e ≢ 0
    → Absent e xs
    → l.next e ≡ 0
    → l.prev e ≡ 0
    → IsList (list_append l e) (push xs e)
unfolding list_append list_empty
list_append-IsList l e [] v some_e absent no_next no_prev =
    let test : (l.head == 0) ≡ true = ground (arith, v.starts) in
    let same : list_append l e ≡ record l { head = e; tail = e } = rw test refl in
    subst (λ (k : Links). IsList k (e ∷ [])) (sym same)
      (record { starts = refl; linked = (some_e, no_prev, no_next, refl); unique = (tt, tt) })
list_append-IsList l e (x ∷ xs) v some_e absent no_next no_prev =
    let test : (l.head == 0) ≡ false = ground (arith, v.starts, v.linked.0) in
    let same : list_append l e
        ≡ record l { next = put (put l.next l.tail e) e 0; prev = put l.prev e l.tail; tail = e } =
      rw test refl in
    subst (λ (k : Links). IsList k (x ∷ (xs ++ (e ∷ [])))) (sym same)
      (record {
        starts = v.starts;
        linked = appended l.next l.prev l.tail 0 e (x ∷ xs) v.linked absent v.unique some_e;
        unique = Unique-push (x ∷ xs) e v.unique absent;
      })

foreach_lem :
    (l : Links) (p : ℕ) (xs : List ℕ)
    → Linked l.next l.prev l.tail p xs
    → foreach_from (suc (length xs)) l (first xs) (if first xs == 0 then 0 else l.next (first xs))
      ≡ ok xs
unfolding foreach_from
foreach_lem l p [] links = refl
foreach_lem l p (x ∷ xs) (some_x, before, behind, links) =
    let test : (x == 0) ≡ false = ground arith in rw (test, behind, foreach_lem l x xs links) refl

pub list_foreach_lem :
    (l : Links) (xs : List ℕ) → IsList l xs → list_foreach (suc (length xs)) l ≡ ok xs
unfolding list_foreach
list_foreach_lem l xs v =
    ap (λ (k : ℕ). foreach_from (suc (length xs)) l k (if k == 0 then 0 else l.next k)) v.starts
    ∙ foreach_lem l 0 xs v.linked
