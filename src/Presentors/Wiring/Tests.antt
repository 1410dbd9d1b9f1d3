-- ===== src/Presentors/Wiring/Tests.antt =====
-- A use case of the containers of library/presentors/rest/service.py and
-- library/presentors/faststream/app_factory.py.
