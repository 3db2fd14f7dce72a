-- ===== src/Btree.antt =====
-- The B+tree, `crates/btree`.
pub mod Edge
pub mod Node
pub mod Route
pub mod Chase
pub mod Split
pub mod Shape
pub mod LeafPage
pub mod SplitLeaf
pub mod InnerPage
pub mod SplitInner
pub mod Merge
pub mod MergeLeaf
pub mod PackInner
pub mod MergeInner
pub mod Leaf
pub mod LeafBound
pub mod LeafMarks
pub mod LeafInsert
pub mod LeafEdit
pub mod LeafReplace
pub mod LeafUpsert
pub mod TakeEntry
pub mod PlacePending
pub mod SplitPending
pub mod Publish
pub mod ParentEdges
pub mod PublishSplit
pub mod RoundTrip
mod Tests
