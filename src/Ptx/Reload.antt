-- ===== src/Ptx/Reload.antt =====
-- What loading the same PTX file again makes of the prototypes.
use fan_master_thesis.Base.{List}
