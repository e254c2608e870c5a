-- ===== src/Api/Memory.antt =====
-- api/v1/zz_generated.deepcopy.go: the deep copies of the resources, over a heap. The pointers, slices
-- and maps of a resource are addresses here, since a copy is about what two resources share.
pub mod Heap
pub mod Layout
pub mod Cells
pub mod Slots
pub mod DeepCopyInto
pub mod DeepCopy
pub mod Owned
pub mod Copies
pub mod Behind
pub mod Plain
pub mod Meant
pub mod Deep
pub mod Independence
