-- ===== src/Routing/Runs.antt =====
-- No run of the router brings a domain back that is gone.
