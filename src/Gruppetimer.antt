-- ===== src/Gruppetimer.antt =====
-- gruppetimer/: programs from the group sessions. `Stack` is the list of gruppetimer/uke8/.
pub mod Stack
mod Examples
