-- ===== src/TaskState.antt =====
-- pico-legacy-runtime/pico/task_state.py: the snapshot of one run, its operations and its JSON form.
-- Every method that returns `self` after an assignment returns the new record here.
pub mod Fields
pub mod Codec
pub mod RoundTrip
pub mod Progress
pub mod History
pub mod Checklist
