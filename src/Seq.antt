-- ===== src/Seq.antt =====
-- seq.go: the ordered tree of vertices. An `*element` is its ID: `byID` holds every element, so the
-- pointers of `children` and `roots` are the keys of that map.
pub mod Key
pub mod Search
pub mod Vertices
pub mod Walk
