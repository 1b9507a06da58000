-- ===== src/Desktop.antt =====
-- The desktop shell: the application state machine (src/hal9000/state.py) and the click
-- aggregator (src/hal9000/clicks.py).
pub mod HalState
pub mod Clicks
