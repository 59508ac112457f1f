-- ===== src/Discovery/Dummy.antt =====
-- adapter/kratos/discovery/dummy: a registrar that registers nothing.
use opendevops_codo_golang_s.Common.{Option, Bytes, none}
use opendevops_codo_golang_s.Discovery.{ServiceInstance}

record Registrar : Type 0 where

-- Register and Deregister: no error.
register : Registrar → ServiceInstance → Option Bytes
register x service = none

deregister : Registrar → ServiceInstance → Option Bytes
deregister x service = none
