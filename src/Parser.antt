-- ===== src/Parser.antt =====
-- event_parser_t of src/server/event/event_parser.h and event_parser.cpp: it reads modes, pins and
-- events from the configuration and creates the events in the event handler.
pub mod Words
pub mod Json
pub mod State
pub mod Lookup
pub mod Actions
pub mod Conditions
pub mod Whole
pub mod Ends
pub mod Upkeep
pub mod Total
pub mod Limits
