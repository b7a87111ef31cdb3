-- ===== src/ListAllObjects.antt =====
-- src/tools/list_all_objects: a crew of workers that lists a bucket breadth first.
pub mod Misc
pub mod Queue
pub mod Worker
pub mod Process
pub mod Crew
pub mod Tree
pub mod Manager
pub mod Life
pub mod Online
pub mod Options
pub mod Main
