-- ===== src/Parsers.antt =====
-- The parsers of the configuration files: classes BaseParser, ModelParser and their descendants in
-- momosecpp/src. The XML parser calls them with the start of an element, with text, and with the end
-- of an element, which none of them reads.
pub mod Texts
pub mod Document
pub mod Tables
pub mod Models
pub mod Simple
pub mod Nomadic
pub mod Pursue
pub mod Era
pub mod Messages
pub mod Getters
pub mod Attributes
pub mod Colors
pub mod Scenes
pub mod Ranges
pub mod Failures
pub mod Recorders
pub mod Written
pub mod CharVects
