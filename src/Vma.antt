-- ===== src/Vma.antt =====
-- mm/vma.c: the list of memory areas of a task: inserting, finding, copying and mapping them.
-- An area is known by its address `self`; the file mapping behind it by the address of the mapping.
-- `list_insert_ordered` comes through the interface `Base.Ordered.OrderedList`; `calloc` and `malloc`
-- are arguments. The spin lock makes each call one step of the model.
pub mod Area
pub mod Insert
pub mod Load
pub mod Mmap
pub mod Disjoint
pub mod Overlap
pub mod Find
pub mod Region
pub mod Update
pub mod Placing
pub mod Paging
pub mod Copy
mod Tests
