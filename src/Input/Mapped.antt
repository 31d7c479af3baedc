-- ===== src/Input/Mapped.antt =====
-- read_op.h and read_op.cc, MMap. What the system answers is an argument, with the size of its pages. err
-- of the C library ends the process, so that a `return false` behind it is not reached: both that end
-- and a read outside of the mapped memory are none.
pub mod Leaks
use openmi_base.Base.{
  ℕ, zero, suc, ◌-◌, ◌%◌, Bool, true, false, ◌&&◌, List, [], ◌∷◌, ◌++◌, Option, none, some, length,
  ltb, ◌>>=◌, if◌then◌else◌,
}
use openmi_base.Base.Slots.{slot_of, clear_slot}
use openmi_base.Base.Dict.{Text}
use openmi_base.Base.Format.{c_string}

-- The answers to one call of load: what a path that opens for reading holds, and whether fstat, mmap of
-- a size that is not 0, and close are done.
pub record Answers : Type 0 where
  pub opens : Text → Option (List ℕ)
  pub stats : Bool
  pub maps : Bool
  pub closes : Bool

-- The mappings of the process: the address of the next one, and each live one with its bytes.
pub record Mappings : Type 0 where
  pub next : ℕ
  pub live : List (ℕ × List ℕ)

-- `store_`, where none is the null pointer, and `size_`.
pub record MemoryMap : Type 0 where
  pub store : Option ℕ
  pub size : ℕ

abbrev pub new_memory_map : MemoryMap
new_memory_map = record { store = none; size = 0 }

abbrev pub nothing : ℕ → List ℕ
nothing zero = []
nothing (suc n) = 0 ∷ nothing n

-- The bytes of a mapping: those of the file, and zero bytes to the end of its last page.
unfoldable pub paged : ℕ → List ℕ → List ℕ
paged page bytes = bytes ++ nothing ((page - length bytes % page) % page)

-- mmap refuses the size 0.
unfoldable pub map_file : ℕ → Answers → List ℕ → Mappings → Option (Mappings × ℕ)
map_file page sys bytes p =
    if sys.maps && ltb 0 (length bytes)
    then some (record { next = suc p.next; live = (p.next, paged page bytes) ∷ p.live }, p.next)
    else none

abbrev pub passed : Bool → Option (Unit {0})
passed true = some tt
passed false = none

-- A path that is null or empty is none.
abbrev pub given_path : Option Text → Option Text
given_path none = none
given_path (some []) = none
given_path (some (c ∷ cs)) = some (c ∷ cs)

-- MMap::load; what `store_` was before is not unmapped.
unfoldable pub load :
    ℕ → Answers → Option Text → Mappings → MemoryMap → Option (Mappings × MemoryMap × Bool)
load page sys path p m = do
  name ← given_path path
  bytes ← sys.opens name
  _ ← passed sys.stats
  r ← map_file page sys bytes p
  _ ← passed sys.closes
  some (r.0, record { store = some r.1; size = length bytes }, true)

-- munmap refuses the size 0.
unfoldable pub unmap : Option ℕ → ℕ → Mappings → Option Mappings
unmap none size p = none
unmap (some at) size p =
    if ltb 0 size then some (record p { live = clear_slot at p.live }) else none

-- MMap::close, which the destructor calls too.
unfoldable pub close_map : Mappings → MemoryMap → Option (Mappings × MemoryMap)
close_map p m = do q ← unmap m.store m.size p; some (q, record { store = none; size = 0 })

-- TextContent of what is loaded.
unfoldable pub text_content : Mappings → MemoryMap → Option Text
text_content p m = do at ← m.store; bytes ← slot_of at p.live; c_string bytes

-- TextContent of a path.
unfoldable pub text_content_of :
    ℕ → Answers → Text → Mappings → MemoryMap → Option (Mappings × MemoryMap × Text)
text_content_of page sys path p m = do
  r ← load page sys (some path) p m
  t ← text_content r.0 r.1
  some (r.0, r.1, t)
