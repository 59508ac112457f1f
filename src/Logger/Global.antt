-- ===== src/Logger/Global.antt =====
-- The logger that is set, of logger/global.go: a proxy which every holder of GetLogger shares.
use opendevops_codo_golang_s.Logger.Helper.{Logger}

-- What a Logger value is: a logger, or the proxy `global`.
pub data Sink (V W : Type 0) : Type 0 where
  direct : Logger V W → Sink V W
  appliance : Sink V W

-- loggerAppliance: the embedded Logger.
pub record Appliance (V W : Type 0) : Type 0 where
  pub embedded : Sink V W

module _ {V W : Type 0} where
  -- SetLogger
  unfoldable pub set_logger : Sink V W → Appliance V W → Appliance V W
  set_logger l a = record a { embedded = l }

  -- GetLogger
  unfoldable pub get_logger : Sink V W
  get_logger = appliance
