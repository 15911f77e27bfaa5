-- ===== src/Links.antt =====
-- src/include/list.h: circular doubly linked lists whose links stand in the entries themselves.
-- An `Entry *` is a number, with 0 for NULL. The `prev` and `next` fields of all entries are two
-- maps. A function that is given `Entry ** head` takes the value of `*head` and returns the new
-- one. `none` is the access to a field through NULL. The `assert`s are compiled out (-DNDEBUG).
pub mod Chain
pub mod Insert
pub mod Remove
pub mod Move
mod Tests
use dthreads.Base.{
  ℕ, zero, suc, Bool, ◌&&◌, Option, none, some, List, [], ◌∷◌, ◌==◌, if◌then◌else◌, ◌>>=◌,
}
use dthreads.Base.Maps.{update}

abbrev pub Ptr : Type 0
Ptr = ℕ

abbrev pub null : Ptr
null = 0

pub record Links : Type 0 where
  pub next : Ptr → Ptr
  pub prev : Ptr → Ptr

-- `p->next`, `p->prev` and the assignments to them.
unfoldable pub load_next : Ptr → Links → Option Ptr
load_next p m = if p == null then none else some (m.next p)

unfoldable pub load_prev : Ptr → Links → Option Ptr
load_prev p m = if p == null then none else some (m.prev p)

unfoldable pub store_next : Ptr → Ptr → Links → Option Links
store_next p v m = if p == null then none else some (record m { next = update m.next p v })

unfoldable pub store_prev : Ptr → Ptr → Links → Option Links
store_prev p v m = if p == null then none else some (record m { prev = update m.prev p v })

unfoldable pub is_empty : Ptr → Bool
is_empty head = head == null

unfoldable pub next_entry : Ptr → Links → Option Ptr
unfolding load_next
next_entry current m = load_next current m

-- The new `*src`, and the links.
unfoldable pub move_whole_list : (prev src : Ptr) → Links → Option (Ptr × Links)
unfolding load_next load_prev store_next store_prev
move_whole_list prev src m = if src == null then some (src, m) else do
  next ← load_next prev m
  srctail ← load_prev src m
  m ← store_prev next srctail m
  m ← store_prev src prev m
  m ← store_next srctail next m
  m ← store_next prev src m
  some (null, m)

unfoldable pub insert_tail : (entry head : Ptr) → Links → Option (Ptr × Links)
unfolding load_next load_prev store_next store_prev
insert_tail entry head m =
    if head == null
    then (do m ← store_prev entry entry m; m ← store_next entry entry m; some (entry, m))
    else (do
      tail ← load_prev head m
      m ← store_next tail entry m
      m ← store_prev head entry m
      m ← store_prev entry tail m
      m ← store_next entry head m
      some (head, m))

-- `*head` is read only: the entry comes behind the one that it points to.
unfoldable pub insert_head : (entry head : Ptr) → Links → Option Links
unfolding load_next load_prev store_next store_prev
insert_head entry head m = do
  next ← load_next head m
  m ← store_next head entry m
  m ← store_prev next entry m
  m ← store_prev entry head m
  store_next entry next m

unfoldable pub insert_next : (entry prev : Ptr) → Links → Option Links
unfolding load_next load_prev store_next store_prev
insert_next entry prev m = do
  next ← load_next prev m
  m ← store_prev next entry m
  m ← store_prev entry prev m
  m ← store_next entry next m
  store_next prev entry m

unfoldable pub remove_entry : (entry head : Ptr) → Links → Option (Ptr × Links)
unfolding load_next load_prev store_next store_prev
remove_entry entry head m = do
  prev ← load_prev entry m
  next ← load_next entry m
  if prev == entry && next == entry then some (null, m) else (do
    m ← store_next prev next m
    m ← store_prev next prev m
    some (if head == entry then next else head, m))

-- The entry (NULL if there is none), the new `*head`, and the links.
unfoldable pub remove_head_entry : (head : Ptr) → Links → Option (Ptr × Ptr × Links)
remove_head_entry head m =
    if head == null
    then some (null, head, m)
    else do (head', m') ← remove_entry head head m; some (head, head', m')

-- The entries that `printEntries` prints: at most ten, from `*head` on.
unfoldable print_from : ℕ → (first entry : Ptr) → Links → List Ptr
print_from zero first entry m = []
print_from (suc left) first entry m =
    let rest = print_from left first (m.next entry) m in
    if entry == null then [] else entry ∷ (if m.next entry == first then [] else rest)

unfoldable pub print_entries : (head : Ptr) → Links → List Ptr
unfolding print_from
print_entries head m = print_from 10 head head m
