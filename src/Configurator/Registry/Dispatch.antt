-- ===== src/Configurator/Registry/Dispatch.antt =====
-- The switch of `main` in src/configurator.c, whatever the command is.
use real_time_cyclic.Os.{Os}
