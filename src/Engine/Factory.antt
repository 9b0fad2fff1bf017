-- ===== src/Engine/Factory.antt =====
-- src/engine_factory.cpp: which engine a build makes for a hint.
use market_data_ingress.Base.{Bool, true, false, not, ◌&&◌, Option, none, some, if◌then◌else◌}
use market_data_ingress.Engine.{BackendHint, auto, tensorrt, mock}

-- The classes that the factory constructs.
pub data Backend : Type 0 where
  tensorrt_backend mock_backend : Backend

-- The preprocessor symbols that it tests.
pub record Build : Type 0 where
  pub force_mock_backend : Bool
  pub with_tensorrt : Bool

abbrev pub is_mock : BackendHint → Bool
is_mock mock = true
is_mock tensorrt = false
is_mock auto = false

unfoldable pub make_engine : Build → BackendHint → Bool → Option Backend
make_engine build preferred allow_mock_fallback =
    if build.force_mock_backend
    then some mock_backend
    else if build.with_tensorrt && not (is_mock preferred)
    then some tensorrt_backend
    else if is_mock preferred
    then some mock_backend
    else if allow_mock_fallback
    then some mock_backend
    else none
