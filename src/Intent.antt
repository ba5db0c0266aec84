-- ===== src/Intent.antt =====
-- brain/intent: the catalog of motion intents, and the matching of a transcript against it
pub mod Distance
pub mod Hangul
pub mod Normalize
pub mod Phonetic
pub mod Recipe
pub mod Sorting
pub mod Catalog
pub mod Pronunciation
pub mod Loading
