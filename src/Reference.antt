-- ===== src/Reference.antt =====
-- examples/vdc-reference.c: the reference device connector, an application of the library that
-- offers one dimmable light. Doubles are bit patterns; what it prints is not modelled.
pub mod Scenes
pub mod Icon
pub mod Site
pub mod Dsuid
pub mod Session
pub mod SetProperty
pub mod GetProperty
pub mod Program
mod Examples
