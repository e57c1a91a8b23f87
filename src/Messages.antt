-- ===== src/Messages.antt =====
-- The message-passing models (momosecpp/src/MessageNode.cpp, MessageModel.cpp, MessageData.cpp and
-- MessageRecorder.cpp).
pub mod Store
pub mod Node
pub mod Friends
pub mod Push
pub mod Receive
pub mod Model
pub mod Recorder
pub mod Walk
pub mod Waypoint
