-- ===== src/Tools/PropertySet.antt =====
-- tools/property.h, tools/property_set.h and tools/property_set.cpp: values of five kinds under
-- keys. A `double` is kept as its 64 bits, which the code stores and copies only.
pub mod Typed
pub mod Kinds
pub mod Reads
pub mod Abstract
