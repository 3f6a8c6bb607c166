-- ===== src/PollClient/Tests.antt =====
-- The client without an event poll with the small library, and its theorem at such a run.
