-- ===== src/Lib.antt =====
-- Momose++ (momosecpp): a simulator of moving nodes, extended with nodes that create messages,
-- push them to a neighbour, and trust one another or not.
--
-- The program and this library. Paths are those of the repository.
--   momosecpp/src/Point2D.cpp, Vector2D.cpp, Ray2D.cpp    Geometry
--   momosecpp/src/Node.cpp, include/Color.h               Node
--   momosecpp/src/MessageNode.cpp, MessageData.cpp        Messages.Node (the store, creation, reception
--     and merging), Messages.Friends (the trust table), Messages.Push (pushMessagesTo)
--   momosecpp/src/MessageModel.cpp, and CreateMessageNode
--     of RandomWalkMessageModel.cpp                       Messages.Model
--   momosecpp/src/RandomWalkMessageModelBuilder.cpp and
--     MessageModel::setModel                              Messages.Model.Build
--   momosecpp/src/RandomWalkMessageNode.cpp               Messages.Walk
--   momosecpp/src/RandomWaypointMessageNode.cpp           Messages.Waypoint
--   momosecpp/src/MessageRecorder.cpp                     Messages.Recorder
--   momosecpp/src/EraModel.cpp (the role assignment),
--     setType of EraNode.cpp                              Era
--   momosecpp/src/EraNode.cpp, and setup, think and
--     coloring of EraModel.cpp                            Era.Walk
--   momosecpp/src/ScenCircle.cpp, ScenRectangle.cpp       Scenario.Shapes
--   momosecpp/src/Scenario.cpp, Building.cpp, HotSpot.h   Scenario.Queries
--   momosecpp/src/SimTime.cpp                             Simulation.Clock
--   momosecpp/src/AiManager.cpp, Simulation.cpp           Simulation.Cycle
--   momosecpp/src/Simulation.cpp (setup and closing)      Simulation.Phases
--   momosecpp/src/SimulationManager.cpp                   Manager
--   create of the other builders of models                Manager.Models
--   toXml of Scenario.cpp, ScenCircle.cpp, ScenRectangle.cpp, ScenText.cpp, HotSpot.cpp
--                                                         Scenario.Writing, read back in Parsers.Written
--   momosecpp/src/PhysicEngine.cpp                        Simulation.Physics
--   momosecpp/src/RandomWalkNode.cpp, RandomWaypointNode.cpp   Mobility.Walk
--   momosecpp/src/HotSpotNode.cpp                         Mobility.HotSpots
--   momosecpp/src/NomadicModel.cpp (the reference point)  Mobility.Guide
--   momosecpp/src/NomadicModel.cpp, NomadicNode.cpp,
--     PursueModel.cpp, PursueNode.cpp                     Mobility.Groups
--   momosecpp/src/SimpleModel.cpp, RandomWalkModel.cpp,
--     RandomWaypointModel.cpp, HotSpotModel.cpp           Mobility.Setups
--   momosecpp/src/ViewerRecorder.cpp                      Viewer
--   momosecpp/src/BaseParser.cpp                          Parsers.Texts, Parsers.CharVects (with Utils.cpp)
--   momosecpp/src/ModelParser.cpp, SimpleModelParser.cpp, EraModelParser.cpp, NomadicModelParser.cpp,
--     PursueModelParser.cpp, MessageModelParser.cpp       Parsers.Models, Simple, Era, Nomadic, Pursue,
--     Messages with Getters; Parsers.Document and Parsers.Tables are the contract they keep
--   momosecpp/src/ScenarioParser.cpp, TimeScenarioParser.cpp, ConfigSimParser.cpp   Parsers.Scenes,
--     Parsers.Colors
--   momosecpp/src/ViewerRecorderParser.cpp                Parsers.Recorders
-- A function of the source has its name in lower case with underscores: pushMessagesTo is
-- push_messages_to. A method that changes its object takes the record and returns it changed.
-- In a step of the simulation the recorders run, then the managers: the AI manager lets the models
-- and the nodes think (MessageModel::think creates, pushes and merges messages), and the physic
-- engine moves the nodes against the buildings of the scenario. The message recorder writes its
-- rows at the end, and the viewer recorder what has changed since the time before. Before all
-- that, the parsers read the configuration, and the builders make the models from it.
--
-- Numbers. `float`, `double` and <math.h> are the parameter `Floating` (Floats), with the laws of
-- the comparisons as `IsOrdered`; Floats.Milli is a fixed-point instance. rand and random_shuffle are
-- the parameter `Random`, with `IsShuffling` for random_shuffle. Identifiers and counters are
-- natural numbers: a uuid is a `long`, and a counter below INT_MAX times an id fits in it.
--
-- Texts are the native String. The extraction of a number from a stream is the parameter
-- `Extraction` (Parsers.Texts), and `ostream <<` on numbers is `Printing` (Scenario.Writing).
--
-- Faults. Option's `none` is undefined behaviour: an access outside an array or a vector, or a null
-- pointer. A std::map is an ascending association list (Messages.Store). Pointers to nodes and hot
-- spots are places in a list; in Era they are handles.
--
-- Loops are recursion on the list or on a count. The main loop of the simulation and the reading of a
-- file in blocks are on fuel, where `none` is a loop that has not ended yet. A bound on the number of
-- ticks, and one on the number of blocks, is fuel enough.
--
-- Not modelled: expat and its wrapper XMLParser.cpp, which call the parsers with the events of a
-- document; the text of the files that are written, and the printed messages, which are input and
-- output; and main.cpp, which reads the command line with a library.
pub mod Base
pub mod Floats
pub mod Random
pub mod Geometry
pub mod Node
pub mod Messages
pub mod Era
pub mod Scenario
pub mod Simulation
pub mod Mobility
pub mod Viewer
pub mod Parsers
pub mod Manager
pub mod Tests
