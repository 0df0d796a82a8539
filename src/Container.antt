-- ===== src/Container.antt =====
-- libmsrv/include/magicserver/msrvcontainer.h: the array that a Listener keeps its descriptors in,
-- and the queue through which a WorkerPool hands requests to its workers.
pub mod Array
pub mod Queue
