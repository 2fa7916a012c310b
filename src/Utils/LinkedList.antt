-- ===== src/Utils/LinkedList.antt =====
-- src/utils/LinkedList.h, class `LinkedList<T>`. Entries live on the heap, and an entry's address is
-- a number, 0 for `nullptr`. `operator new` is not part of the program: what it returns is an
-- argument, `none` where it throws. Copying and moving a value are the same here.
pub mod Chain
pub mod Ends
pub mod Walk
pub mod Insert
pub mod InsertBefore
pub mod Concat
pub mod SelfConcat
pub mod Clear
mod Tests
use premir_cpp.Common.{
  ℕ, zero, suc, ◌+◌, ◌-◌, Bool, List, [], ◌∷◌, Option, none, some, ◌==◌, if◌then◌else◌, ◌&&◌, not,
}
use premir_cpp.Common.Run.{Run, ok, throws, out_of_memory, undefined, out_of_fuel, ◌>>=◌, defined}

pub record Entry (T : Type 0) : Type 0 where
  pub value : T
  pub next : ℕ

-- What each address holds.
abbrev pub Heap : Type 0 → Type 0
Heap T = ℕ → Option (Entry T)

pub record LinkedList : Type 0 where
  pub size : ℕ
  pub first : ℕ
  pub last : ℕ

-- `nullptr`.
abbrev pub null : ℕ
null = 0

abbrev pub new : LinkedList
new = record { size = 0; first = null; last = null }

-- The move constructor: the new list, and what it leaves of the other.
abbrev pub move_from : LinkedList → LinkedList × LinkedList
move_from list = (list, record { size = 0; first = null; last = null })

module _ {T : Type 0} where
  unfoldable pub write : Heap T → ℕ → Option (Entry T) → Heap T
  write h p content a = if a == p then content else h a

  -- `*p`.
  unfoldable pub load : Heap T → ℕ → Run (Entry T)
  load h p = if p == null then undefined else defined (h p)

  -- `p->setNext(next)`.
  unfoldable pub set_next : Heap T → ℕ → ℕ → Run (Heap T)
  unfolding load write
  set_next h p next = do entry ← load h p; ok (write h p (some (record entry { next = next })))

  -- `delete p`.
  unfoldable pub delete : Heap T → ℕ → Run (Heap T)
  unfolding load write
  delete h p = do _ ← load h p; ok (write h p none)

  -- `new Entry(value, next)`.
  unfoldable pub new_entry : Heap T → Option ℕ → T → ℕ → Run (Heap T × ℕ)
  unfolding write
  new_entry h none value next = throws out_of_memory
  new_entry h (some p) value next = ok (write h p (some (record { value = value; next = next })), p)

  unfoldable pub push_entry : Heap T → LinkedList → ℕ → Run (Heap T × LinkedList)
  unfolding set_next
  push_entry h l item =
      if l.first == null
      then ok (h, record { size = l.size + 1; first = item; last = item })
      else (do
        linked ← set_next h l.last item
        ok (linked, record l { size = l.size + 1; last = item }))

  unfoldable pub unshift_entry : Heap T → LinkedList → ℕ → Run (Heap T × LinkedList)
  unfolding set_next
  unshift_entry h l item =
      if l.first == null
      then ok (h, record { size = l.size + 1; first = item; last = item })
      else (do
        linked ← set_next h item l.first
        ok (linked, record l { size = l.size + 1; first = item }))

  -- Each of these returns the heap, the list and the entry that the method returns.
  unfoldable pub push : Heap T → LinkedList → Option ℕ → T → Run (Heap T × LinkedList × ℕ)
  unfolding new_entry push_entry
  push h l address value = do
    (stored, item) ← new_entry h address value null
    (linked, l') ← push_entry stored l item
    ok (linked, l', item)

  unfoldable pub unshift : Heap T → LinkedList → Option ℕ → T → Run (Heap T × LinkedList × ℕ)
  unfolding new_entry unshift_entry
  unshift h l address value = do
    (stored, item) ← new_entry h address value null
    (linked, l') ← unshift_entry stored l item
    ok (linked, l', item)

  unfoldable pub shift : Heap T → LinkedList → Run (Heap T × LinkedList × ℕ)
  unfolding load delete
  shift h l = if l.first == null then ok (h, l, null) else do
    entry ← load h l.first
    freed ← delete h l.first
    ok (
        if entry.next == null
        then (freed, record { size = l.size - 1; first = null; last = null }, null)
        else (freed, record l { size = l.size - 1; first = entry.next }, entry.next))

  -- The loop of `findPrevious`, on fuel, from the entry `p` on.
  unfoldable pub find_from : ℕ → Heap T → ℕ → ℕ → Run ℕ
  unfolding load
  find_from zero h p item = out_of_fuel
  find_from (suc k) h p item = if p == null then ok null else do
    entry ← load h p
    let rest = find_from k h entry.next item
    if not (entry.next == null) && (entry.next == item) then ok p else rest

  unfoldable pub find_previous : Heap T → LinkedList → ℕ → Run ℕ
  unfolding find_from
  find_previous h l item = find_from (l.size + 1) h l.first item

  unfoldable pub pop : Heap T → LinkedList → Run (Heap T × LinkedList × ℕ)
  unfolding find_previous delete set_next
  pop h l = if l.last == null then ok (h, l, null) else do
    prev ← find_previous h l l.last
    freed ← delete h l.last
    if prev == null
        then ok (freed, record { size = l.size - 1; first = null; last = null }, null)
        else (do
          cut ← set_next freed prev null
          ok (cut, record l { size = l.size - 1; last = prev }, prev))

  -- `insertAfter`, with its `insertEntryAfter`.
  unfoldable pub insert_after :
      Heap T → LinkedList → Option ℕ → T → ℕ → Run (Heap T × LinkedList × ℕ)
  unfolding load new_entry set_next
  insert_after h l address value after = do
    entry ← load h after
    (stored, item) ← new_entry h address value entry.next
    linked ← set_next stored after item
    ok (
      linked,
      record l { size = l.size + 1; last = if l.last == after then item else l.last },
      item,
    )

  -- `insertBefore`, with its `insertEntryBefore`.
  unfoldable pub insert_before :
      Heap T → LinkedList → Option ℕ → T → ℕ → Run (Heap T × LinkedList × ℕ)
  unfolding new_entry find_previous set_next
  insert_before h l address value before = do
    (stored, item) ← new_entry h address value before
    if l.first == before
        then ok (stored, record l { size = l.size + 1; first = item }, item)
        else do
          prev ← find_previous stored l before
          linked ← set_next stored prev item
          ok (linked, record l { size = l.size + 1 }, item)

  -- The loop of `operator[]`, on fuel.
  unfoldable pub index_from : ℕ → Heap T → ℕ → ℕ → ℕ → Run ℕ
  unfolding load
  index_from zero h p i index = out_of_fuel
  index_from (suc k) h p i index =
      let rest : Run ℕ = (do entry ← load h p; index_from k h entry.next (i + 1) index) in
      if p == null then ok null else if i == index then ok p else rest

  unfoldable pub at : Heap T → LinkedList → ℕ → Run ℕ
  unfolding index_from
  at h l index = index_from (l.size + 1) h l.first 0 index

  -- The loop of `removeAll`, on fuel.
  unfoldable pub remove_from : ℕ → Heap T → ℕ → Run (Heap T)
  unfolding load delete
  remove_from zero h p = out_of_fuel
  remove_from (suc k) h p =
      if p == null
      then ok h
      else do entry ← load h p; freed ← delete h p; remove_from k freed entry.next

  unfoldable pub remove_all : Heap T → LinkedList → Run (Heap T × LinkedList)
  unfolding remove_from
  remove_all h l = do freed ← remove_from (l.size + 1) h l.first; ok (freed, new)

  -- The loop of `concat`, from the entry `p` of the other list on. Each round takes the next of the
  -- addresses that `operator new` returns, and throws when there is none.
  unfoldable pub concat_from : List ℕ → Heap T → LinkedList → ℕ → Run (Heap T × LinkedList)
  unfolding load push
  concat_from [] h l p =
      if p == null
      then ok (h, l)
      else do entry ← load h p; (pushed, l', _) ← push h l none entry.value; ok (pushed, l')
  concat_from (address ∷ addresses) h l p =
      let copied : Run (Heap T × LinkedList) = do
        entry ← load h p
        (pushed, l', _) ← push h l (some address) entry.value
        still ← load pushed p
        concat_from addresses pushed l' still.next
      in if p == null then ok (h, l) else copied

  unfoldable pub concat : Heap T → LinkedList → List ℕ → LinkedList → Run (Heap T × LinkedList)
  unfolding concat_from
  concat h l addresses list = concat_from addresses h l list.first

  -- The copy constructor.
  unfoldable pub copy : Heap T → List ℕ → LinkedList → Run (Heap T × LinkedList)
  unfolding concat
  copy h addresses list = concat h new addresses list

  -- `operator=`; `same` says whether `this == &list`.
  unfoldable pub assign :
      Heap T → LinkedList → Bool → List ℕ → LinkedList → Run (Heap T × LinkedList)
  unfolding remove_all concat
  assign h l same addresses list =
      if same
      then ok (h, l)
      else do (freed, empty) ← remove_all h l; concat freed empty addresses list
