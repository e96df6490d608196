-- ===== src/CBra.antt =====
-- CBra/: exercises. `Svinn` is the inventory program of CBra/uke9/, `Soknad` the bits
-- of CBra/uke10/.
pub mod Soknad
pub mod Svinn
mod Examples
mod SoknadExamples
